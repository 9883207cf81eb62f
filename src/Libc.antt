-- ===== src/Libc.antt =====
-- The C library of user programs, cleonos/c/src.
pub mod Numbers
