-- ===== src/Container.antt =====
-- The QWN container: c/qwanto_native.h and c/qwanto_native.c.
pub mod Dtype
pub mod Desc
pub mod Image
pub mod Model
pub mod Open
pub mod Find
pub mod Residency
pub mod Access
mod Tests
