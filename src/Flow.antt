-- ===== src/Flow.antt =====
-- Robine Flow, the automation language: syntax tree, text, checker, compiler and interpreter.
pub mod Ast
pub mod Syntax
pub mod Float
pub mod View
pub mod Plan
pub mod Runtime
pub mod Check
pub mod Samples
