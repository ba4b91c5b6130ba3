-- ===== src/Tests.antt =====
-- Runs at concrete inputs, on a new disk.
mod FreeLists
mod Sessions
mod Users
mod Shells
mod Kernels
mod Zockers
mod Allocators
