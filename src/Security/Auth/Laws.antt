-- ===== src/Security/Auth/Laws.antt =====
-- What an accepted token says, and that it is accepted once.
use fin_docs_analysis_evals.Common.{
  nat_eq, string_eq, ℕ, ◌+◌, ◌/◌, ◌≤◌, ◌≡◌, refl, ◌∙◌, String, Bool, true, false, Option, none,
  some, List, [], ◌∷◌, contains, Result, ok, err, ◌>>=◌, leb, arith, ◌⊎◌, inl, inr, Bool-cases, ap,
  subst, ◌≢◌, leb→le,
}
use text.Mathlib.TextEquality.{eq_iff}
use fin_docs_analysis_evals.Common.Int.{pos, ◌-ℤ◌, ◌≤ℤ◌, ◌<ℤ◌}
use fin_docs_analysis_evals.Security.Replay.{Ledger, consume, consume_all, AllBefore, consume_once}
use fin_docs_analysis_evals.Security.Auth.{
  ServiceClaims, AuthPolicy, AuthError, replay, TokenCodec, joined, split, matches,
  authenticate_parts, three_parts, authenticate, in_audience, checks, microseconds, expiry, finish,
  admitted, verify,
}

-- The token has three parts, and the third signs the other two with the secret.
abbrev pub IsSigned : TokenCodec → String → String → ServiceClaims → Type 0
IsSigned codec secret token claims =
    (h : String) × (p : String) × (s : String) × (split token ≡ h ∷ p ∷ s ∷ [])
    × (codec.signature s ≡ some (codec.hmac secret (joined h p)))
    × (codec.claims p ≡ some claims)

matches_eq : (o : Option String) (e : String) → matches o e ≡ true → o ≡ some e
matches_eq none e h = cc
matches_eq (some s) e h = ground (arith, eq_iff e s)

parts-IsSigned :
    (codec : TokenCodec) (secret h p s : String) (claims : ServiceClaims)
    → authenticate_parts codec secret h p s ≡ ok claims
    → (codec.signature s ≡ some (codec.hmac secret (joined h p))) × (codec.claims p ≡ some claims)
unfolding authenticate_parts
parts-IsSigned codec secret h p s claims e =
    ground (arith, matches_eq (codec.signature s) (codec.hmac secret (joined h p)))

authenticate-IsSigned :
    (codec : TokenCodec) (secret token : String) (claims : ServiceClaims)
    → authenticate codec secret token ≡ ok claims
    → IsSigned codec secret token claims
unfolding authenticate
authenticate-IsSigned codec secret token claims e = of_parts (split token) refl e
  where
    of_parts :
        (xs : List String)
        → split token ≡ xs
        → three_parts codec secret xs ≡ ok claims
        → IsSigned codec secret token claims
    of_parts (h ∷ p ∷ s ∷ []) q e =
        let (sig, payload) = parts-IsSigned codec secret h p s claims e in
        (h, p, s, q, sig, payload)
    of_parts [] q e = cc
    of_parts (h ∷ []) q e = cc
    of_parts (h ∷ p ∷ []) q e = cc
    of_parts (h ∷ p ∷ s ∷ t ∷ r) q e = cc

claims_of : ServiceClaims → Result AuthError ServiceClaims → ServiceClaims
claims_of c (ok d) = d
claims_of c (err _) = c

ok-injective :
    {c d : ServiceClaims} → ◌≡◌ {A = Result AuthError ServiceClaims} (ok c) (ok d) → c ≡ d
unfolding claims_of
ok-injective {c} h = ap (claims_of c) h

-- What the policy demands of the claims, at a time in seconds.
pub record IsAdmissible (policy : AuthPolicy) (claims : ServiceClaims) (required app : String)
    (now : ℕ) : Type 0 where
  pub issuer : claims.iss ≡ policy.issuer
  pub audience : in_audience policy.audience claims.aud ≡ true
  pub started : claims.iat ≤ℤ pos (now + 30)
  pub running : pos now <ℤ claims.exp
  pub application : claims.application_id ≡ app
  pub role : contains required claims.roles ≡ true
  pub lifetime : claims.exp -ℤ claims.iat ≤ℤ pos policy.maximum_token_age_seconds

checks-IsAdmissible :
    (policy : AuthPolicy) (claims : ServiceClaims) (role app : String) (now : ℕ)
    → checks policy claims role app now ≡ ok tt
    → IsAdmissible policy claims role app now
unfolding checks
checks-IsAdmissible policy claims role app now h =
    ground (arith, eq_iff claims.iss policy.issuer, eq_iff claims.application_id app)

IsAdmissible-checks :
    (policy : AuthPolicy) (claims : ServiceClaims) (role app : String) (now : ℕ)
    → IsAdmissible policy claims role app now
    → checks policy claims role app now ≡ ok tt
unfolding checks
IsAdmissible-checks policy claims role app now h =
    ground (arith, eq_iff claims.iss policy.issuer, eq_iff claims.application_id app)

admitted_parts :
    (codec : TokenCodec) (secret : String) (policy : AuthPolicy) (token role app : String)
    (clock : ℕ) (claims : ServiceClaims)
    → admitted codec secret policy token role app clock ≡ ok claims
    → (authenticate codec secret token ≡ ok claims)
      × (checks policy claims role app (clock / microseconds) ≡ ok tt)
unfolding admitted
admitted_parts codec secret policy token role app clock claims h =
    of_token (authenticate codec secret token) refl h
  where
    of_token :
        (r : Result AuthError ServiceClaims)
        → authenticate codec secret token ≡ r
        → (r >>= λ c. checks policy c role app (clock / microseconds) >>= λ _. ok c) ≡ ok claims
        → (authenticate codec secret token ≡ ok claims)
          × (checks policy claims role app (clock / microseconds) ≡ ok tt)
    of_token (err e) q h = cc
    of_token (ok c) q h = of_checks (checks policy c role app (clock / microseconds)) refl h
      where
        of_checks :
            (r : Result AuthError (Unit {0}))
            → checks policy c role app (clock / microseconds) ≡ r
            → (r >>= λ _. ok c) ≡ ok claims
            → (authenticate codec secret token ≡ ok claims)
              × (checks policy claims role app (clock / microseconds) ≡ ok tt)
        of_checks (err e) k h = cc
        of_checks (ok tt) k h =
            let same : c ≡ claims = ok-injective h in
            (q ∙ h, subst (λ x. checks policy x role app (clock / microseconds) ≡ ok tt) same k)

finish_ok :
    (r : Result AuthError ServiceClaims) (spend_it : Bool) (at : ℕ) (ledger : Ledger)
    (claims : ServiceClaims)
    → (finish r spend_it at ledger).0 ≡ ok claims
    → (r ≡ ok claims)
      × ((spend_it ≡ false) ⊎ ((consume claims.jti (expiry claims) at ledger).0 ≡ true))
finish_ok (err e) spend_it at ledger claims h = (h, cc)
finish_ok (ok c) false at ledger claims h = (h, inl refl)
finish_ok (ok c) true at ledger claims h =
    elim (Bool-cases (consume c.jti (expiry c) at ledger).0) [
      | inl fresh ↦
          let same : c ≡ claims = ok-injective (rw fresh at h) in
          (ap ok same, inr (subst (λ x. (consume x.jti (expiry x) at ledger).0 ≡ true) same fresh))
      | inr seen ↦ absurd (replayed (rw seen at h))
    ]
  where
    replayed : ◌≢◌ {A = Result AuthError ServiceClaims} (err replay) (ok claims)
    replayed e = cc

-- A token is accepted only if it is signed with the secret, its claims satisfy the policy for the
-- role and the application at that second, and, unless it is not to be consumed, it was fresh.
pub verify_sound :
    (codec : TokenCodec) (secret : String) (policy : AuthPolicy) (token role app : String)
    (spend_it : Bool) (clock at : ℕ) (ledger : Ledger) (claims : ServiceClaims)
    → (verify codec secret policy token role app spend_it clock at ledger).0 ≡ ok claims
    → IsSigned codec secret token claims
      × IsAdmissible policy claims role app (clock / microseconds)
      × ((spend_it ≡ false) ⊎ ((consume claims.jti (expiry claims) at ledger).0 ≡ true))
unfolding verify
verify_sound codec secret policy token role app spend_it clock at ledger claims h =
    let (all_checks, fresh) =
      finish_ok (admitted codec secret policy token role app clock) spend_it at ledger claims h in
    let (signed, checked) =
      admitted_parts codec secret policy token role app clock claims all_checks in
    (
      authenticate-IsSigned codec secret token claims signed,
      checks-IsAdmissible policy claims role app (clock / microseconds) checked,
      fresh,
    )

spent_ledger :
    (r : Result AuthError ServiceClaims) (at : ℕ) (ledger : Ledger) (claims : ServiceClaims)
    → r ≡ ok claims
    → (finish r true at ledger).1 ≡ (consume claims.jti (expiry claims) at ledger).1
spent_ledger r at ledger claims e = rw e

verify_ledger :
    (codec : TokenCodec) (secret : String) (policy : AuthPolicy) (token role app : String)
    (clock at : ℕ) (ledger : Ledger) (claims : ServiceClaims)
    → (verify codec secret policy token role app true clock at ledger).0 ≡ ok claims
    → (verify codec secret policy token role app true clock at ledger).1
      ≡ (consume claims.jti (expiry claims) at ledger).1
unfolding verify
verify_ledger codec secret policy token role app clock at ledger claims h =
    spent_ledger (admitted codec secret policy token role app clock) at ledger claims
      (finish_ok (admitted codec secret policy token role app clock) true at ledger claims h).0

was_fresh : {b : Bool} → (true ≡ false) ⊎ (b ≡ true) → b ≡ true
was_fresh (inl e) = cc
was_fresh (inr e) = e

true-false : {b : Bool} → b ≡ true → b ≡ false → ⊥
true-false p q = cc

-- A token identifier that was accepted is accepted again, for any token, role and application and
-- whatever else was consumed in between, only by a ledger whose clock has reached its expiry.
pub verify_once :
    (codec : TokenCodec) (secret : String) (policy : AuthPolicy)
    (token token' role role' app app' : String) (clock at clock' at' : ℕ) (ledger : Ledger)
    (claims claims' : ServiceClaims) (calls : List (String × ℕ × ℕ))
    → (verify codec secret policy token role app true clock at ledger).0 ≡ ok claims
    → AllBefore (expiry claims) calls
    → claims'.jti ≡ claims.jti
    → let ledger' =
        consume_all calls (verify codec secret policy token role app true clock at ledger).1 in
      (verify codec secret policy token' role' app' true clock' at' ledger').0 ≡ ok claims'
      → expiry claims ≤ at'
verify_once codec secret policy token token' role role' app app' clock at clock' at' ledger claims
      claims' calls first before same second =
    let (_, _, fresh) =
      verify_sound codec secret policy token role app true clock at ledger claims first in
    let (_, _, again) =
      verify_sound codec secret policy token' role' app' true clock' at'
        (consume_all calls (verify codec secret policy token role app true clock at ledger).1)
        claims' second in
    elim (Bool-cases (leb (expiry claims) at')) [
      | inl late ↦ leb→le (expiry claims) at' late
      | inr early ↦
          let refused =
            consume_once claims.jti (expiry claims) (expiry claims') at at' calls ledger
              (was_fresh fresh) before (ground (arith, early)) in
          let reused =
            subst
              (λ j.
                (consume j (expiry claims') at' (
                  consume_all calls
                    (verify codec secret policy token role app true clock at ledger).1)).0
                ≡ true)
              same (was_fresh again) in
          absurd (
            true-false
              (rw (verify_ledger codec secret policy token role app clock at ledger claims first) at
                reused)
              refused)
    ]
