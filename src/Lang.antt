-- ===== src/Lang.antt =====
-- prayer-lang: the syntax tree, the words of a statement, and the statements' own parsers.
pub mod Ast
pub mod Lexer
pub mod Scanner
pub mod Removed
pub mod Scanned
pub mod Quoting
pub mod Clauses
pub mod Craft
pub mod Commands
pub mod Transfer
pub mod Words
pub mod Projection
pub mod RoundTrip
pub mod Analysis
pub mod Catalog
pub mod Compile
pub mod Pipeline
mod Tests
