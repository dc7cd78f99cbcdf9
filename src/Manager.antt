-- ===== src/Manager.antt =====
-- The driver manager, c/driver_manager/adbc_driver_manager.cc.
pub mod FileName
pub mod Table
pub mod Options
pub mod System
pub mod Database
pub mod Connection
pub mod Forward
pub mod Session
pub mod Toy
mod Tests
