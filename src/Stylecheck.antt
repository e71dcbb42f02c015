-- ===== src/Stylecheck.antt =====
-- The checks of stylecheck.
pub mod Names
mod Examples
