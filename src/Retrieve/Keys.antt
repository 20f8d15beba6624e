-- ===== src/Retrieve/Keys.antt =====
-- The keys of the query cache of src/findociq/retrieve/pipeline.py.
pub mod Laws
use fin_docs_analysis_evals.Common.{
  nat_eq, ℕ, Bool, true, false, ◌&&◌, ◌||◌, Option, none, some, List, [], ◌∷◌, ◌++◌, is_empty, ◌==◌,
}
use fin_docs_analysis_evals.Ingest.Schema.{Text}
use fin_docs_analysis_evals.Ingest.Chunker.Blocks.{join_with}

-- The arguments of `retrieve` that its result depends on.
pub record Request : Type 0 where
  pub query : Text
  pub application : Option Text
  pub document_ids : List Text

-- `application_id or ''`
abbrev pub or_empty : Option Text → Text
or_empty none = []
or_empty (some a) = a

-- `"|"`
abbrev pub bar : Text
bar = 124 ∷ []

-- `f"{query}\0{application_id or ''}\0{'|'.join(document_ids)}"`
abbrev pub cache_key : Request → Text
cache_key r = r.query ++ (0 ∷ (or_empty r.application ++ (0 ∷ join_with bar r.document_ids)))

-- `part in s`
abbrev pub begins : Text → Text → Bool
begins [] s = true
begins (c ∷ p) [] = false
begins (c ∷ p) (d ∷ s) = c == d && begins p s

abbrev pub occurs : Text → Text → Bool
occurs p [] = begins p []
occurs p (c ∷ s) = begins p (c ∷ s) || occurs p s

-- `f"\0{application_id}\0"`
abbrev pub marker : Text → Text
marker application = 0 ∷ (application ++ (0 ∷ []))
