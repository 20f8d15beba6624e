-- ===== src/Security/Examples.antt =====
-- The theorems of the security layer at concrete inputs.
use fin_docs_analysis_evals.Common.{
  string_eq, pair_eq, str_lt, sorted, ℕ, String, ◌≡◌, refl, ◌≢◌, ◌⊎◌, true, false, none, some, List,
  [], ◌∷◌, ok, err, if◌then◌else◌, arith, is_empty, all, ◌≤◌, ◌/◌,
}
use text.Mathlib.TextEquality.{eq_iff}
use fin_docs_analysis_evals.Common.Int.{pos}
use fin_docs_analysis_evals.Common.Dict.{lookup, IsDict}
use fin_docs_analysis_evals.Security.Record.{DocumentRecord, conflict}
use fin_docs_analysis_evals.Security.Registry
use fin_docs_analysis_evals.Security.Registry.{Registry, Key, key_of, conflicts, is_owned}
use fin_docs_analysis_evals.Security.Registry.Laws.{record_of, register_lem}
use fin_docs_analysis_evals.Security.Registry.Deletion.{
  owns-delete_application, owns-delete_application_ne, delete_application_idem,
}
use fin_docs_analysis_evals.Security.Registry.History.{
  Op, register_op, delete_op, run, HasContent, run-HasContent,
}
use fin_docs_analysis_evals.Security.Postgres
use fin_docs_analysis_evals.Security.Postgres.{Database, key_list, returned}
use fin_docs_analysis_evals.Security.Postgres.Laws.{
  owns-eq-all, register_keeps_policy, delete_application_repeats_receipt,
}
use fin_docs_analysis_evals.Security.Replay.{consume, consume_all, consume_once}
use fin_docs_analysis_evals.Security.Auth.{
  ServiceClaims, AuthPolicy, one, TokenCodec, fields, split, authenticate, authenticate_parts,
  checks, header_ok, admitted, verify, expiry, microseconds,
}
use fin_docs_analysis_evals.Security.Auth.Laws.{IsSigned, IsAdmissible, verify_sound, verify_once}

abbrev report : DocumentRecord
report = record {
  application_id = "app";
  document_id = "d1";
  sha256 = "aa";
  state = "active";
  policy_hash = "p1";
  retained_until = 5;
}

abbrev other_report : DocumentRecord
other_report = record report { application_id = "else"; document_id = "d2" }

abbrev forged : DocumentRecord
forged = record report { sha256 = "bb" }

abbrev store : Registry
store = record {
  retention_days = 30;
  records = (("app", "d1"), report) ∷ (("else", "d2"), other_report) ∷ [];
  deletion_receipts = [];
}

store-IsDict : IsDict store.records
store-IsDict = (refl, (refl, tt))

distinct_apps : ◌≢◌ {A = String} "app" "else"
distinct_apps = ground (arith, eq_iff "app" "else")

register_lem_example :
    ((conflicts (some report) forged ≡ true)
      × (Registry.register forged store ≡ (err conflict, store)))
    ⊎ ((conflicts (some report) forged ≡ false)
        × ((Registry.register forged store).0 ≡ ok tt)
        × (record_of (Registry.register forged store).1 "app" "d1" ≡ some forged)
        × ((Registry.register forged store).1.deletion_receipts ≡ store.deletion_receipts))
register_lem_example = register_lem forged store "app" "d1"

owns-delete_application_example :
    Registry.owns "app" ("d1" ∷ []) "p1" (Registry.delete_application "app" store).1 ≡ false
owns-delete_application_example = owns-delete_application "app" "p1" ("d1" ∷ []) store store-IsDict

owns-delete_application_ne_example :
    Registry.owns "else" ("d2" ∷ []) "p1" (Registry.delete_application "app" store).1
    ≡ Registry.owns "else" ("d2" ∷ []) "p1" store
owns-delete_application_ne_example =
    owns-delete_application_ne "app" "else" "p1" ("d2" ∷ []) store store-IsDict distinct_apps

delete_application_idem_example :
    let (ids, s) = Registry.delete_application "app" store in
    Registry.delete_application "app" s ≡ (ids, s)
delete_application_idem_example = delete_application_idem "app" store store-IsDict

abbrev history : List Op
history = register_op forged ∷ delete_op "app" ∷ register_op report ∷ delete_op "else" ∷ []

run-HasContent_example : HasContent (run history store) "app" "d1" "aa"
run-HasContent_example =
    run-HasContent history store "app" "d1" "aa" store-IsDict (report, refl, refl)

abbrev database : Database
database = record {
  documents = store.records;
  deletion_receipts = ("app", []) ∷ [];
  jwt_replay = [];
}

owns-eq-all_example : Postgres.owns "app" ("d1" ∷ "d1" ∷ []) "p1" database ≡ (
    if is_empty {A = String} ("d1" ∷ "d1" ∷ [])
    then false
    else all
        (λ d. is_owned "p1" (lookup {K = Key} ("app", d) database.documents))
        ("d1" ∷ "d1" ∷ []))
owns-eq-all_example = owns-eq-all "app" "p1" ("d1" ∷ "d1" ∷ []) database store-IsDict

abbrev renewed : DocumentRecord
renewed = record report { policy_hash = "p2" }

register_keeps_policy_example :
    ((Postgres.register renewed database).0 ≡ ok tt)
    × (Postgres.owns "app" ("d1" ∷ []) "p2" (Postgres.register renewed database).1 ≡ false)
register_keeps_policy_example =
    register_keeps_policy renewed report database store-IsDict refl refl
      (ground (arith, eq_iff "p1" "p2"))

delete_application_repeats_receipt_example :
    ((Postgres.delete_application "app" database).0 ≡ sorted str_lt ("d1" ∷ []))
    × ((Postgres.delete_application "app" (Postgres.delete_application "app" database).1).0
        ≡ sorted str_lt [])
delete_application_repeats_receipt_example =
    delete_application_repeats_receipt "app" [] database refl (λ e. cc)

first_use : (consume "token-01" 100 10 []).0 ≡ true
unfolding consume
first_use = refl

consume_once_example :
    (consume "token-01" 100 90
      (consume_all (("token-02", 80, 50) ∷ []) (consume "token-01" 100 10 []).1)).0
    ≡ false
consume_once_example =
    consume_once "token-01" 100 100 10 90 (("token-02", 80, 50) ∷ []) [] first_use (omega arith)
      (omega arith)

abbrev claims : ServiceClaims
claims = record {
  sub = "service";
  aud = one "findociq";
  iss = "gateway";
  roles = "ingest" ∷ [];
  application_id = "app";
  jti = "token-01";
  iat = pos 100;
  exp = pos 200;
}

abbrev policy : AuthPolicy
policy = record { issuer = "gateway"; audience = "findociq"; maximum_token_age_seconds = 300 }

-- Decoders that accept one token.
abbrev codec : TokenCodec
codec = record {
  header = λ h. fields (some "HS256") none;
  signature = λ s. some s;
  claims = λ p. some claims;
  hmac = λ key message. "sig";
}

abbrev clock : ℕ
clock = 150000000

accepted : (verify codec "key" policy "h.p.sig" "ingest" "app" true clock clock []).0 ≡ ok claims
unfolding verify admitted authenticate authenticate_parts header_ok checks split consume
accepted = refl

verify_sound_example :
    IsSigned codec "key" "h.p.sig" claims
    × IsAdmissible policy claims "ingest" "app" (clock / microseconds)
    × ((true ≡ false) ⊎ ((consume claims.jti (expiry claims) clock []).0 ≡ true))
verify_sound_example =
    verify_sound codec "key" policy "h.p.sig" "ingest" "app" true clock clock [] claims accepted

-- The ledger's clock has passed the expiry that the check just before it had not reached.
abbrev just_before : ℕ
just_before = 199999999

abbrev just_after : ℕ
just_after = 200000000

accepted_again :
    (verify codec "key" policy "h.p.sig" "ingest" "app" true just_before just_after
      (consume_all [] (verify codec "key" policy "h.p.sig" "ingest" "app" true clock clock []).1)).0
    ≡ ok claims
unfolding verify admitted authenticate authenticate_parts header_ok checks split consume
accepted_again = refl

verify_once_example : expiry claims ≤ just_after
verify_once_example =
    verify_once codec "key" policy "h.p.sig" "h.p.sig" "ingest" "ingest" "app" "app" clock clock
      just_before just_after [] claims claims [] accepted tt refl accepted_again
