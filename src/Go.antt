-- ===== src/Go.antt =====
-- The Go side of the model: the values that an `interface{}` holds, how a call ends, and code that
-- changes a state and may panic.
pub mod Value
pub mod Outcome
