-- ===== src/LiraCalc.antt =====
-- servak_na_linux/server: the first server, over a Firebird database.
pub mod Cp1251
pub mod Database
pub mod Delete
pub mod Relay
pub mod Save
pub mod Add
pub mod MyTime
pub mod Status
