-- ===== src/Sstrip.antt =====
-- package/sstrip/sstrip.c, which drops the end of an ELF file that is no part of its memory image.
pub mod Endian
pub mod Headers
pub mod Zeros
pub mod Strip
mod Tests
