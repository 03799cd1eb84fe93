-- ===== src/Store.antt =====
-- The D1 database as a record of tables, and the effects of the code on it.
pub mod Status
pub mod Tables
pub mod Effects
pub mod Inversion
pub mod Keeps
pub mod Samples
