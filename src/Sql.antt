-- ===== src/Sql.antt =====
-- sql: the lexer, the syntax tree, the parser, expressions, the schema, storage and plans.
pub mod Token
pub mod Lexer
pub mod Literal
pub mod Ast
pub mod Operators
pub mod Parser
pub mod Peek
pub mod Progress
pub mod Errors
pub mod Grammar
pub mod Statements
pub mod Value
pub mod Eval
pub mod Schema
pub mod Storage
pub mod Plan
