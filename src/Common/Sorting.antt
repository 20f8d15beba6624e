-- ===== src/Common/Sorting.antt =====
-- Python's `sorted`, and its order on `str`.
use Prim.Native.Char.{code}
use Prim.Native.String.{String}
use mathlib.Core.Path.{◌≡◌, refl, ap, sym, ◌∙◌}
use mathlib.Core.Bool.{Bool, true, false, not, ◌&&◌}
use mathlib.Core.List.{List, [], ◌∷◌}
use Prim.Native.Nat.{ℕ, suc}
use native.Mathlib.Omega.{arith}
use fin_docs_analysis_evals.Common.Tests.{ltb, if◌then◌else◌}
use fin_docs_analysis_evals.Common.Lists.{length, all, any, All}

-- `a < b` on `str`: lexicographic in the code points.
unfoldable pub str_lt : String → String → Bool
str_lt String.[] String.[] = false
str_lt String.[] (String.◌∷◌ d t) = true
str_lt (String.◌∷◌ c s) String.[] = false
str_lt (String.◌∷◌ c s) (String.◌∷◌ d t) =
    let rest = str_lt s t in
    if ltb (code c) (code d) then true else if ltb (code d) (code c) then false else rest

module _ {A : Type 0} (lt : A → A → Bool) where
  -- Behind the entries that are not above it, so the sort is stable.
  unfoldable pub insert_sorted : A → List A → List A
  insert_sorted x [] = x ∷ []
  insert_sorted x (y ∷ ys) =
      let rest = insert_sorted x ys in if lt x y then x ∷ y ∷ ys else y ∷ rest

  sorted_onto : List A → List A → List A
  unfolding insert_sorted
  sorted_onto acc [] = acc
  sorted_onto acc (x ∷ xs) = sorted_onto (insert_sorted x acc) xs

  -- `sorted(xs)`
  unfoldable pub sorted : List A → List A
  unfolding sorted_onto
  sorted xs = sorted_onto [] xs

  pub length-insert_sorted : (x : A) (ys : List A) → length (insert_sorted x ys) ≡ suc (length ys)
  unfolding insert_sorted
  length-insert_sorted x [] = refl
  length-insert_sorted x (y ∷ ys) = ground (arith, length-insert_sorted x ys)

  length-sorted_onto :
      (acc xs : List A) → length (sorted_onto acc xs) ≡ Prim.Native.Nat.◌+◌ (length acc) (length xs)
  unfolding sorted_onto
  length-sorted_onto acc [] = omega arith
  length-sorted_onto acc (x ∷ xs) =
      omega (arith, length-sorted_onto (insert_sorted x acc) xs, length-insert_sorted x acc)

  pub length-sorted : (xs : List A) → length (sorted xs) ≡ length xs
  unfolding sorted
  length-sorted xs = omega (arith, length-sorted_onto [] xs)

  module _ (p : A → Bool) where
    all-insert_sorted : (x : A) (ys : List A) → all p (insert_sorted x ys) ≡ (p x && all p ys)
    unfolding insert_sorted
    all-insert_sorted x [] = ground arith
    all-insert_sorted x (y ∷ ys) = ground (arith, all-insert_sorted x ys)

    all-sorted_onto : (acc xs : List A) → all p (sorted_onto acc xs) ≡ (all p acc && all p xs)
    unfolding sorted_onto
    all-sorted_onto acc [] = ground arith
    all-sorted_onto acc (x ∷ xs) =
        ground (arith, all-sorted_onto (insert_sorted x acc) xs, all-insert_sorted x acc)

    -- A test of all the entries has the same answer on the sorted list.
    pub all-sorted : (xs : List A) → all p (sorted xs) ≡ all p xs
    unfolding sorted
    all-sorted xs = ground (arith, all-sorted_onto [] xs)

    any-not : (xs : List A) → any p xs ≡ not (all (λ x. not (p x)) xs)
    any-not [] = refl
    any-not (x ∷ xs) = ground (arith, any-not xs)

  -- Sorting loses no entry that passes a test, and adds none.
  pub any-sorted : (p : A → Bool) (xs : List A) → any p (sorted xs) ≡ any p xs
  any-sorted p xs =
      any-not p (sorted xs) ∙ ap not (all-sorted (λ x. not (p x)) xs) ∙ sym (any-not p xs)

  module _ {ℓ} (P : A → Type ℓ) where
    All-insert_sorted : (x : A) (ys : List A) → P x → All P ys → All P (insert_sorted x ys)
    unfolding insert_sorted
    All-insert_sorted x [] px h = (px, tt)
    All-insert_sorted x (y ∷ ys) px h = by_order (lt x y) (All-insert_sorted x ys px h.1)
      where
        by_order :
            (b : Bool)
            → All P (insert_sorted x ys)
            → All P (if b then x ∷ y ∷ ys else y ∷ insert_sorted x ys)
        by_order true _ = (px, h)
        by_order false k = (h.0, k)

    All-sorted_onto : (acc xs : List A) → All P acc → All P xs → All P (sorted_onto acc xs)
    unfolding sorted_onto
    All-sorted_onto acc [] h k = h
    All-sorted_onto acc (x ∷ xs) h k =
        All-sorted_onto (insert_sorted x acc) xs (All-insert_sorted x acc k.0 h) k.1

    -- What holds of all the entries holds of all of the sorted list.
    pub All-sorted : (xs : List A) → All P xs → All P (sorted xs)
    unfolding sorted
    All-sorted xs h = All-sorted_onto [] xs tt h

-- No two entries are the same.
module _ {A : Type 0} (same : A → A → Bool) where
  abbrev pub apart : List A → Bool
  apart [] = true
  apart (x ∷ xs) = all (λ y. not (same x y)) xs && apart xs

  abbrev apart_from : List A → List A → Bool
  apart_from xs ys = all (λ x. all (λ y. not (same x y)) ys) xs

  apart_from-left :
      (x : A) (xs ys : List A)
      → apart_from xs (x ∷ ys) ≡ (all (λ y. not (same y x)) xs && apart_from xs ys)
  apart_from-left x [] ys = refl
  apart_from-left x (z ∷ xs) ys = ground (arith, apart_from-left x xs ys)

  none_apart : (xs : List A) → apart_from xs [] ≡ true
  none_apart [] = refl
  none_apart (x ∷ xs) = none_apart xs

  module _ (lt : A → A → Bool) (symmetric : (x y : A) → same x y ≡ same y x) where
    all-symmetric :
        (x : A) (ys : List A) → all (λ y. not (same y x)) ys ≡ all (λ y. not (same x y)) ys
    all-symmetric x [] = refl
    all-symmetric x (y ∷ ys) = ground (arith, symmetric x y, all-symmetric x ys)

    apart-insert_sorted :
        (x : A) (ys : List A)
        → apart (insert_sorted lt x ys) ≡ (all (λ y. not (same x y)) ys && apart ys)
    unfolding insert_sorted
    apart-insert_sorted x [] = refl
    apart-insert_sorted x (y ∷ ys) = ground (
      arith,
      symmetric x y,
      apart-insert_sorted x ys,
      all-insert_sorted lt (λ z. not (same y z)) x ys,
    )

    apart-sorted_onto :
        (acc xs : List A)
        → apart (sorted_onto lt acc xs) ≡ (apart acc && (apart xs && apart_from acc xs))
    unfolding sorted_onto
    apart-sorted_onto acc [] = ground (arith, none_apart acc)
    apart-sorted_onto acc (x ∷ xs) = ground (
      arith,
      apart-sorted_onto (insert_sorted lt x acc) xs,
      apart-insert_sorted x acc,
      all-insert_sorted lt (λ z. all (λ y. not (same z y)) xs) x acc,
      apart_from-left x acc xs,
      all-symmetric x acc,
    )

    -- Sorting keeps the entries apart.
    pub apart-sorted : (xs : List A) → apart (sorted lt xs) ≡ apart xs
    unfolding sorted
    apart-sorted xs = ground (arith, apart-sorted_onto [] xs)
