-- ===== src/Examples.antt =====
-- Tests, and the properties at concrete inputs.
mod Fixtures
mod StatusCodes
mod Commands
mod Payloads
mod LogPages
mod Switch
mod Suffixes
mod Patterns
mod Options
mod JsonText
mod Arrays
mod Connect
mod Discoveries
mod Tools
