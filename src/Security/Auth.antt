-- ===== src/Security/Auth.antt =====
-- `ServiceJwtVerifier` of src/findociq/security/auth.py. Base64, JSON, the HMAC and the validation
-- of the claims are a parameter; the order of the checks and the replay ledger are the model's.
pub mod Laws
use Prim.Native.Char.{code, Char}
use fin_docs_analysis_evals.Common.{
  nat_eq, string_eq, ℕ, ◌+◌, ◌*◌, ◌/◌, ◌≤◌, String, Bool, true, false, not, ◌&&◌, ◌||◌, Option,
  none, some, List, [], ◌∷◌, ◌==◌, contains, Result, ok, err, ◌>>=◌, ◌>>◌, guard, raise_if, leb,
  ltb, if◌then◌else◌,
}
use fin_docs_analysis_evals.Common.Int.{ℤ, pos, pos_part, ◌+ℤ◌, ◌-ℤ◌, ltb_ℤ, leb_ℤ}
use fin_docs_analysis_evals.Security.Replay.{Ledger, consume}

pub data Audience : Type 0 where
  one : String → Audience
  many : List String → Audience

pub record ServiceClaims : Type 0 where
  pub sub : String
  pub aud : Audience
  pub iss : String
  pub roles : List String
  pub application_id : String
  pub jti : String
  pub iat : ℤ
  pub exp : ℤ

pub record AuthPolicy : Type 0 where
  pub issuer : String
  pub audience : String
  pub maximum_token_age_seconds : ℕ

-- What `json.loads` makes of the first segment: it fails, an object, or another JSON value, which
-- has no `get`.
pub data Header : Type 0 where
  undecodable : Header
  fields : Option String → Option String → Header
  not_an_object : Header

pub data AuthError : Type 0 where
  invalid_authorization invalid_issuer expired wrong_application wrong_role lifetime replay :
      AuthError
  attribute_error : AuthError

-- Code outside this repository: base64, JSON, HMAC-SHA256 and pydantic.
pub record TokenCodec : Type 0 where
  pub header : String → Header
  pub signature : String → Option String
  pub claims : String → Option ServiceClaims
  pub hmac : String → String → String

abbrev on_first : Char → List String → List String
on_first c [] = []
on_first c (s ∷ ss) = String.◌∷◌ c s ∷ ss

-- `token.split(".")`
unfoldable pub split : String → List String
split String.[] = String.[] ∷ []
split (String.◌∷◌ c s) =
    let rest = split s in if code c == b'.' then String.[] ∷ rest else on_first c rest

-- `f"{encoded_header}.{encoded_payload}"`
abbrev pub joined : String → String → String
joined String.[] p = String.◌∷◌ "." p
joined (String.◌∷◌ c s) p = String.◌∷◌ c (joined s p)

abbrev is_text : Option String → String → Bool
is_text none s = false
is_text (some t) s = t == s

abbrev typ_or_jwt : Option String → Bool
typ_or_jwt none = true
typ_or_jwt (some t) = t == "JWT"

-- `header.get("alg") != "HS256" or header.get("typ", "JWT") != "JWT"`
unfoldable pub header_ok : Header → Result AuthError (Unit {0})
header_ok undecodable = err invalid_authorization
header_ok not_an_object = err attribute_error
header_ok (fields alg typ) =
    raise_if (not (is_text alg "HS256") || not (typ_or_jwt typ)) invalid_authorization

-- `hmac.compare_digest`; a signature that is not base64 raises too.
abbrev matches : Option String → String → Bool
matches none expected = false
matches (some supplied) expected = expected == supplied

abbrev or_invalid : Option ServiceClaims → Result AuthError ServiceClaims
or_invalid none = err invalid_authorization
or_invalid (some claims) = ok claims

module _ (codec : TokenCodec) (secret : String) where
  unfoldable pub authenticate_parts : String → String → String → Result AuthError ServiceClaims
  unfolding header_ok
  authenticate_parts h p s = do
    header_ok (codec.header h)
    guard (matches (codec.signature s) (codec.hmac secret (joined h p))) invalid_authorization
    or_invalid (codec.claims p)

  -- `encoded_header, encoded_payload, encoded_signature = …` wants exactly three parts.
  abbrev pub three_parts : List String → Result AuthError ServiceClaims
  three_parts (h ∷ p ∷ s ∷ []) = authenticate_parts h p s
  three_parts _ = err invalid_authorization

  -- The `try` block of `verify`.
  unfoldable pub authenticate : String → Result AuthError ServiceClaims
  unfolding split
  authenticate token = three_parts (split token)

abbrev in_audience : String → Audience → Bool
in_audience a (one b) = b == a
in_audience a (many bs) = contains a bs

-- The checks between authentication and replay; `now` is in seconds.
unfoldable pub checks :
    AuthPolicy → ServiceClaims → String → String → ℕ → Result AuthError (Unit {0})
unfolding ◌+ℤ◌ ◌-ℤ◌
checks policy claims required_role application_id now = do
  raise_if (not (claims.iss == policy.issuer) || not (in_audience policy.audience claims.aud))
      invalid_issuer
  raise_if (ltb_ℤ (pos (now + 30)) claims.iat || leb_ℤ claims.exp (pos now)) expired
  raise_if (not (claims.application_id == application_id)) wrong_application
  raise_if (not (contains required_role claims.roles)) wrong_role
  raise_if (ltb_ℤ (pos policy.maximum_token_age_seconds) (claims.exp -ℤ claims.iat)) lifetime

abbrev pub microseconds : ℕ
microseconds = 1000000

-- `datetime.fromtimestamp(claims.exp)`; the checks have passed, so `exp` is positive.
abbrev pub expiry : ServiceClaims → ℕ
expiry claims = pos_part claims.exp * microseconds

-- `if consume and not self.replay_ledger.consume(…)`; the ledger reads the clock again.
abbrev pub spend : Bool → ServiceClaims → ℕ → Ledger → Result AuthError ServiceClaims × Ledger
spend false claims ledger_clock ledger = (ok claims, ledger)
spend true claims ledger_clock ledger =
    let (fresh, entries) = consume claims.jti (expiry claims) ledger_clock ledger in
    (if fresh then ok claims else err replay, entries)

abbrev pub finish :
    Result AuthError ServiceClaims → Bool → ℕ → Ledger → Result AuthError ServiceClaims × Ledger
finish (ok claims) consume_it ledger_clock ledger = spend consume_it claims ledger_clock ledger
finish (err e) consume_it ledger_clock ledger = (err e, ledger)

-- The part of `verify` that does not touch the ledger.
unfoldable pub admitted :
    TokenCodec → String → AuthPolicy → String → String → String → ℕ → Result AuthError ServiceClaims
unfolding authenticate checks
admitted codec secret policy token required_role application_id clock =
    authenticate codec secret token >>= λ claims.
    checks policy claims required_role application_id (clock / microseconds) >>= λ _. ok claims

-- `verify`, with the two readings of the clock in microseconds.
unfoldable pub verify :
    TokenCodec
    → String
    → AuthPolicy
    → String
    → String
    → String
    → Bool
    → ℕ
    → ℕ
    → Ledger
    → Result AuthError ServiceClaims × Ledger
verify codec secret policy token required_role application_id consume_it clock ledger_clock ledger =
    finish (admitted codec secret policy token required_role application_id clock) consume_it
      ledger_clock ledger
