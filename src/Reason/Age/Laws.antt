-- ===== src/Reason/Age/Laws.antt =====
-- The age counts the anniversaries that are reached.
use fin_docs_analysis_evals.Common.{nat_eq, ℕ, ◌+◌, ◌≡◌, ◌↔◌, true, false, some, arith}
use fin_docs_analysis_evals.Reason.Age.{Date, before, completed_years}

-- The anniversary after a number of years.
abbrev pub anniversary : ℕ → Date → Date
anniversary n d = record { year = d.year + n; month = d.month; day = d.day }

pub completed_years-anniversary :
    (incorporated assessed : Date) (n : ℕ)
    → (completed_years incorporated assessed ≡ some n) ↔ (
        (before assessed (anniversary n incorporated) ≡ false)
        × (before assessed (anniversary (n + 1) incorporated) ≡ true))
unfolding completed_years
completed_years-anniversary incorporated assessed n = ground (
  arith,
  nat_eq.same_iff assessed.month incorporated.month,
  nat_eq.same_iff assessed.year incorporated.year,
  nat_eq.same_iff assessed.year (incorporated.year + n),
  nat_eq.same_iff assessed.year (incorporated.year + (n + 1)),
)
