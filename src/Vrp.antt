-- ===== src/Vrp.antt =====
-- Value range propagation: staticcheck/vrp.
pub mod Z
pub mod Interval
pub mod Token
pub mod Range
pub mod Constraint
pub mod Eval
pub mod Future
pub mod Widen
pub mod Sigma
pub mod Build
pub mod Graph
pub mod Solve
pub mod Solver
mod Examples
