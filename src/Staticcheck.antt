-- ===== src/Staticcheck.antt =====
-- The checks of staticcheck (staticcheck/lint.go, rules.go) on functions in SSA form.
pub mod Appends
pub mod Constants
pub mod Predetermined
pub mod Ranged
pub mod Recursion
mod Examples
