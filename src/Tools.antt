-- ===== src/Tools.antt =====
-- src/tools/: the program that ties the parts together.
pub mod Runner
