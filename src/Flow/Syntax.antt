-- ===== src/Flow/Syntax.antt =====
-- crates/robine-flow-syntax/src/lib.rs: the lexer, the parser and the formatter of Flow text.
pub mod Token
pub mod Lexer
pub mod Atom
pub mod Parser
pub mod Format
pub mod RoundTrip
mod Tests
