-- ===== src/Charpack.antt =====
-- charpack: src/charpack_altrep.h and src/charpack_api.cpp, a character vector in one raw vector.
pub mod Layout
pub mod Encode
pub mod Access
pub mod Fill
pub mod State
pub mod Reader
pub mod Methods
