-- ===== src/Unused.antt =====
-- The checker for unused code: unused/unused.go. The modules below follow the file: the graph, the
-- roots, what uses what, and what is reported.
pub mod World
pub mod Graph
pub mod Roots
pub mod Uses
pub mod Marking
pub mod Report
mod Examples
