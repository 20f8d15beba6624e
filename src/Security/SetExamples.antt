-- ===== src/Security/SetExamples.antt =====
-- The theorems of document sets and of the local registry at concrete inputs.
use fin_docs_analysis_evals.Common.{
  string_eq, pair_eq, String, ◌≡◌, refl, Bool, true, List, [], ◌∷◌, ok, sorted, str_lt,
}
use fin_docs_analysis_evals.Security.Record.{DocumentRecord, is_digest}
use fin_docs_analysis_evals.Security.Local
use fin_docs_analysis_evals.Security.Local.{Rows}
use fin_docs_analysis_evals.Security.DocumentSets.{
  DocumentSet, Store, validated_set, freeze, put, get,
}
use fin_docs_analysis_evals.Security.DocumentSets.Laws.{get-put, get-owned}

abbrev row_record : DocumentRecord
row_record = record {
  application_id = "app";
  document_id = "d1";
  sha256 = "aa";
  state = "active";
  policy_hash = "p1";
  retained_until = 5;
}

abbrev table_rows : Rows
table_rows = (("app", "d1"), row_record) ∷ []

owns_row : Local.owns "app" ("d1" ∷ []) "p1" table_rows ≡ true
unfolding Local.owns
owns_row = refl

abbrev zeros : String
zeros = "0000000000000000000000000000000000000000000000000000000000000000"

abbrev hash : String → List String → String → String
hash application ids policy = zeros

abbrev owner_of_all : String → List String → String → Bool
owner_of_all application ids policy = true

abbrev frozen : DocumentSet
frozen = record {
  set_owner = "app";
  document_ids = "d1" ∷ "d2" ∷ [];
  policy = zeros;
  set_id = zeros;
}

freezes : freeze hash "app" ("d1" ∷ "d2" ∷ []) zeros ≡ ok frozen
unfolding freeze validated_set is_digest sorted str_lt
freezes = refl

get-put_example :
    get hash owner_of_all zeros "app" zeros (put hash owner_of_all frozen []).1 ≡ ok frozen
get-put_example = get-put hash owner_of_all frozen [] freezes refl refl

abbrev one_set : Store
one_set = (zeros, ("app", frozen)) ∷ []

reads : get hash owner_of_all zeros "app" zeros one_set ≡ ok frozen
unfolding get freeze validated_set is_digest sorted str_lt
reads = refl

get-owned_example : (owner_of_all "app" frozen.document_ids zeros ≡ true) × (frozen.policy ≡ zeros)
get-owned_example = get-owned hash owner_of_all zeros "app" zeros one_set frozen reads
