-- ===== src/Tests.antt =====
-- A small file system in memory, and the library's theorems at it.
pub mod Demo
pub mod Data
mod Growing
mod Naming
mod Pools
mod Files
mod Operations
mod Mounting
mod Starting
mod Requests
mod Callbacks
mod Tools
