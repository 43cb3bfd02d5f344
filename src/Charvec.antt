-- ===== src/Charvec.antt =====
-- charvec: inst/include/charport/charvec, the store of large data blocks and its builders, and
-- src/charvec_altrep.h, the R vector over a store.
pub mod Store
pub mod Builder
pub mod Fill
pub mod State
pub mod Assign
pub mod Rebuild
pub mod Vector
pub mod Callbacks
pub mod Entry
