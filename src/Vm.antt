-- ===== src/Vm.antt =====
-- src/vm.rs: the stack machine. Its parts are passed on by name; what is proved stands below it.
pub mod Value
mod Gas
mod Context
mod Step
pub mod Run
mod Tests
pub mod Turn
pub mod Typing
pub mod Frame
pub mod Loop
pub mod Root
pub mod Depth
pub mod Builds
pub mod GasUse
pub mod Arms
pub mod Expr
pub mod Progress
unfoldable pub use Value.*
unfoldable pub use Gas.*
unfoldable pub use Context.*
unfoldable pub use Step.*
unfoldable pub use Run.*
