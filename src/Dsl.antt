-- ===== src/Dsl.antt =====
-- src/dsl: the language of `.fman` files, from bytes to a run plan.
pub mod Token
pub mod Lexer
pub mod Parser
pub mod File
