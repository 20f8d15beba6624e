-- ===== src/Security/Record.antt =====
-- `DocumentRecord` of src/findociq/security/registry.py, shared by the three registries.
use Prim.Native.Char.{code}
use fin_docs_analysis_evals.Common.{nat_eq, string_eq}
use fin_docs_analysis_evals.Common.{
  ℕ, suc, String, Bool, true, ◌&&◌, ◌||◌, leb, ◌==◌, Result, ok, err, if◌then◌else◌,
}

-- A `datetime` is a number of microseconds after a fixed origin.
pub record DocumentRecord : Type 0 where
  pub application_id : String
  pub document_id : String
  pub sha256 : String
  pub state : String
  pub policy_hash : String
  pub retained_until : ℕ

pub data RegistryError : Type 0 where
  invalid_record conflict unavailable : RegistryError

is_hex : ℕ → Bool
is_hex c = (leb b'0' c && leb c b'9') || (leb b'a' c && leb c b'f')

all_hex : String → Bool
unfolding is_hex
all_hex String.[] = true
all_hex (String.◌∷◌ c s) = is_hex (code c) && all_hex s

char_count : String → ℕ
char_count String.[] = 0
char_count (String.◌∷◌ c s) = suc (char_count s)

-- `Field(pattern=r"^[0-9a-f]{64}$")`
unfoldable pub is_digest : String → Bool
unfolding all_hex char_count
is_digest s = char_count s == 64 && all_hex s

-- The validation of `DocumentRecord(...)`.
unfoldable pub validated : DocumentRecord → Result RegistryError DocumentRecord
unfolding is_digest
validated r = if is_digest r.sha256 && is_digest r.policy_hash then ok r else err invalid_record
