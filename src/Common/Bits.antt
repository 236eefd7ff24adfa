-- ===== src/Common/Bits.antt =====
-- The algebra of `&` and `|` on machine words, from the recursion on binary digits that the
-- native operations stand for, and the fields that masks cut out.
mod Step
mod Laws
mod Fields
pub use Laws.*
pub use Fields.*
