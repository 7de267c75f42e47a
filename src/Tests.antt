-- ===== src/Tests.antt =====
-- Runs of the definitions on small inputs, and the theorems at inputs that meet their hypotheses.
mod Memory
mod Arena
mod Stack
mod Pool
mod Map
mod Sort
mod Numeric
mod Handle
mod Utf8
mod Container
mod Page
mod Lease
mod Path
