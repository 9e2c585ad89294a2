-- ===== src/Examples.antt =====
-- The theorems at concrete inputs, with what each part computes there.
mod Hashing
mod Configs
mod Kernels
mod Barriers
mod Agreements
mod Fusing
mod Fleets
mod Tables
mod Runtimes
mod Chunking
mod Probing
mod Sessions
