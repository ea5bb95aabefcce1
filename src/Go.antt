-- ===== src/Go.antt =====
-- The parts of Go's standard library that the operator calls: package strings (TrimSpace, Split),
-- strconv (FormatInt, ParseInt), time (Time, Duration, ParseDuration). They are written from the
-- documented behaviour of those packages.
pub mod Text
pub mod Strconv
pub mod Duration
pub mod Time
