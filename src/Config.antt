-- ===== src/Config.antt =====
-- package/config: the configuration language's expressions and symbols.
pub mod Types
pub mod Numbers
pub mod Value
pub mod Valid
pub mod EliminateYn
pub mod EliminateEq
pub mod Join
pub mod Transform
pub mod Query
pub mod Escape
pub mod Compare
pub mod Setting
pub mod Symtab
pub mod Printer
pub mod Reader
pub mod Calc
pub mod Check
pub mod Print
pub mod Gstr
pub mod Expand
pub mod Menu
mod Tests
