-- ===== src/Bits.antt =====
-- The digits of a machine word: what `|`, `&`, `^` and `<<` do to each of them.
mod Step
pub mod Digit
pub mod Xor
pub mod Pack
pub use Digit.*
pub use Xor.*
