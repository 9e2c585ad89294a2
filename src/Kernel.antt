-- ===== src/Kernel.antt =====
-- gfc/kernels: the device kernels and their launchers.
pub mod Memory
pub mod Family
pub mod Grid
pub mod Pull
pub mod Strided
pub mod Width
pub mod CopyEngine
pub mod Tma
pub mod Fused
pub mod Agreement
pub mod Fuel
pub mod Raw
pub mod Barrier
