-- ===== src/Flow/Syntax/RoundTrip.antt =====
-- crates/robine-flow-syntax/src/lib.rs: what was formatted parses back.
mod Escapes
mod Lexes
mod Words
mod Printable
mod Formatted
mod Parses
mod Parsed
pub mod Theorem
