-- ===== src/Common/Equality.antt =====
-- Python's `==` on the keys that the program compares, and `in` on a list of them.
use Prim.Native.Nat.{ℕ}
use Prim.Native.String.{String}
use mathlib.Core.Path.{◌≡◌, refl}
use mathlib.Core.Logic.{◌↔◌}
use mathlib.Core.Bool.{Bool, true, false, ◌&&◌, ◌||◌}
use mathlib.Core.List.{List, [], ◌∷◌}
use native.Mathlib.Omega.{arith}
use text.Mathlib.Text.{◌==◌ as str_eq}
use text.Mathlib.TextEquality.{eq_iff}
use fin_docs_analysis_evals.Common.Tests.{nat_beq, nat_beq_iff}

pub str_eq_refl : (s : String) → str_eq s s ≡ true
str_eq_refl s = (eq_iff s s).1 refl

abbrev pub pair_beq : String × String → String × String → Bool
pair_beq (a, b) (c, d) = str_eq a c && str_eq b d

pub pair_beq_iff : (p q : String × String) → (pair_beq p q ≡ true) ↔ (p ≡ q)
pair_beq_iff (a, b) (c, d) = ground (arith, eq_iff a c, eq_iff b d)

-- A type whose values serve as keys.
pub record Key {ℓ} (K : Type ℓ) : Type ℓ where
  pub same : K → K → Bool
  pub same_iff : (k l : K) → (same k l ≡ true) ↔ (k ≡ l)

instance abbrev pub pair_eq : Key (String × String)
pair_eq = record { same = pair_beq; same_iff = pair_beq_iff }

instance abbrev pub string_eq : Key String
string_eq = record { same = str_eq; same_iff = eq_iff }

instance abbrev pub nat_eq : Key ℕ
nat_eq = record { same = nat_beq; same_iff = nat_beq_iff }

abbrev pub codes_beq : List ℕ → List ℕ → Bool
codes_beq [] [] = true
codes_beq [] (b ∷ bs) = false
codes_beq (a ∷ rest) [] = false
codes_beq (a ∷ rest) (b ∷ bs) = nat_beq a b && codes_beq rest bs

pub codes_beq_iff : (a b : List ℕ) → (codes_beq a b ≡ true) ↔ (a ≡ b)
codes_beq_iff [] [] = ground arith
codes_beq_iff [] (b ∷ bs) = ground arith
codes_beq_iff (a ∷ rest) [] = ground arith
codes_beq_iff (a ∷ rest) (b ∷ bs) = ground (arith, nat_beq_iff a b, codes_beq_iff rest bs)

-- A text by its code points.
instance abbrev pub codes_eq : Key (List ℕ)
codes_eq = record { same = codes_beq; same_iff = codes_beq_iff }

infix 50 ◌==◌
abbrev pub ◌==◌ {ℓ} : {K : Type ℓ} ⦃key : Key K⦄ → K → K → Bool
◌==◌ ⦃key⦄ k l = key.same k l

module _ {ℓ} {K : Type ℓ} ⦃key : Key K⦄ where
  -- `k in keys`
  abbrev pub contains : K → List K → Bool
  contains k [] = false
  contains k (l ∷ keys) = l == k || contains k keys
