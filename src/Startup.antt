-- ===== src/Startup.antt =====
-- cmd/main.go: the flags, the options of the manager and its servers, and the order of the start-up.
pub mod Options
pub mod Main
pub mod Scheme
pub mod Laws
pub mod Ending
pub mod Order
