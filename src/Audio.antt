-- ===== src/Audio.antt =====
-- The audio output: src/wfmp2.c, frames of MPEG layer II, and src/wfdabplus.c, superframes of DAB+.
-- What is written to the standard output is a list of bytes.
pub mod Mp2
pub mod Adts
pub mod Superframe
mod Examples
