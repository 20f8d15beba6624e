-- ===== src/Reason.antt =====
-- The reasoning layer, src/findociq/reason: exact decimals, the fixed formulas, calculations over
-- cited figures, the reconciliation of debt service and the staged DSCR assessment.
pub mod Age
pub mod Decimal
pub mod Formulas
pub mod Exec
pub mod Figure
pub mod Calculate
pub mod DebtService
pub mod Dscr
mod Examples
mod GateExamples
mod PassExamples
pub mod Gate
pub mod Passes
