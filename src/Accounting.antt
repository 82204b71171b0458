-- ===== src/Accounting.antt =====
-- backend/app/rules/accounting.py, the double-entry engine: one child for each report, and
-- `Equation` for what ties the reports together.
pub mod Voucher
pub mod Lines
pub mod TrialBalance
pub mod ProfitLoss
pub mod BalanceSheet
pub mod Statement
pub mod Equation
mod Tests
