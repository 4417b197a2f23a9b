-- ===== src/Parser.antt =====
-- util/parser.c: option strings and patterns.
pub mod Wildcard
pub mod Match
