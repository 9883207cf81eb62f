-- ===== src/Shell.antt =====
-- The user shell, cleonos/c/apps/shell.
pub mod Path
