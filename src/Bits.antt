-- ===== src/Bits.antt =====
-- Laws of the bitwise operators `&`, `|` and `^` of C at every width. The modules of the
-- simulator compute with these operators; the laws below turn them into arithmetic.
pub mod Digit
pub mod Split
pub mod Mask
