-- ===== src/Numeric.antt =====
-- numeric/: the random number generator and the prime numbers.
pub mod Lehmer
pub mod Prime
