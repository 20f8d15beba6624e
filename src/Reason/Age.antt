-- ===== src/Reason/Age.antt =====
-- src/findociq/reason/company_age.py: the completed years from an incorporation to an assessment.
pub mod Laws
use fin_docs_analysis_evals.Common.{
  nat_eq, ℕ, ◌+◌, ◌-◌, ltb, Bool, ◌&&◌, ◌||◌, ◌==◌, Option, none, some, if◌then◌else◌,
}

-- `datetime.date`
pub record Date : Type 0 where
  pub year : ℕ
  pub month : ℕ
  pub day : ℕ

-- `(a.month, a.day) < (b.month, b.day)`
abbrev pub earlier_in_year : Date → Date → Bool
earlier_in_year a b = ltb a.month b.month || (a.month == b.month && ltb a.day b.day)

-- `a < b`
abbrev pub before : Date → Date → Bool
before a b = ltb a.year b.year || (a.year == b.year && earlier_in_year a b)

-- `completed_years`; `none` is its `ValueError`
unfoldable pub completed_years : Date → Date → Option ℕ
completed_years incorporated assessed =
    if before assessed incorporated
    then none
    else some (
        assessed.year
        - incorporated.year
        - (if earlier_in_year assessed incorporated then 1 else 0))
