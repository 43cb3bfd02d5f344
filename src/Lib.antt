-- ===== src/Lib.antt =====
-- charport: character vectors of R kept outside R's string cache.
--
-- The program has four parts. A charpack (src/charpack_altrep.h, src/charpack_api.cpp) is an R
-- vector whose strings lie in one raw vector: a head, end offsets, encoding tags, and the bytes. A
-- charvec (inst/include/charport/charvec, src/charvec_altrep.h) is one whose strings lie in slices
-- that builders fill. The registry (src/charport_registry.cpp) knows the classes whose vectors can be
-- read without R, and resolves a vector to a reader. Views (inst/include/charport/interop) are what
-- readers give and builders take. A charpack and a charvec register their callbacks with the
-- registry; a fill takes views and an unserialized state, and a reader gives views back.
--
-- Files, and what they model:
--   Prelude: tests on numbers, lists, and Result, in which an error is a raised R error or exception.
--   Memory: pointers and bytes. memcpy is `write` of what `read` gives.
--   Interop: inst/include/charport/interop/types.h; an `int` is its 32-bit pattern.
--   Sizes: inst/include/charport/charvec/detail.h; a size_t is a number below 2 ^ 64.
--   Words: the words of src/charvec_altrep.h, on a host of either byte order.
--   Charsxp: its conversions between R's strings and views. R's string cache is a parameter.
--   Charpack/Layout: namespace charpack_layout. Charpack/Encode and Charpack/Access describe the
--   layout as a function of the records that it holds, which the other files refine.
--   Charpack/Fill: fill_views, fill_slices and fill_materialized_na, with every error.
--   Charpack/State: state_error, swap_words, Serialized_state and Unserialize.
--   Charpack/Reader: the Reader callbacks. Charpack/Methods: the ALTREP methods.
--   Charvec/Store: inst/include/charport/charvec/store.h. Charvec/Builder: the shards of
--   inst/include/charport/charvec/builder.h, Charvec/Builder/Serial its class Builder,
--   Charvec/Builder/Parallel its class ParallelBuilder, and Charvec/Builder/Growable its class
--   GrowableBuilder. Charvec/Builder/Writer: inst/include/charport/charvec/writer.h.
--   Charvec/Fill, Charvec/Assign, Charvec/Rebuild: the functions of src/charvec_altrep.h that build a
--   store from strings, change a record in place, and pack a store anew.
--   Charvec/State: the serialized state of a charvec. Charvec/Vector: the ALTREP methods of
--   charvec_altrep, with the cache of elements. Charvec/Callbacks: its Reader callbacks.
--   Charvec/Entry: src/charvec_api.cpp.
--   Reader: class Reader of inst/include/charport/interop/reader.h over a provider's callbacks, and
--   Reader/Borrow the Reader objects of a program with the borrows that they own.
--   Registry: charport_register_altrep, charport_unregister_altrep, charport_resolve and
--   charport_get_sexp_info. Registry/Direct: the callbacks over R's own storage.
--   Tests: test data, and the theorems at concrete inputs.
--
-- Parameters. R_XLEN_T_MAX, the byte order of the host, whether the locale is UTF-8, R's strings and
-- vectors, which allocations fail, and the providers' own callbacks are arguments of the definitions.
-- Rf_mkCharLenCE is fallible: it raises for embedded NULs. The bound of a charvec's state is the
-- greatest R_xlen_t, 2 ^ 63 - 1 on a 64-bit host, and the bound of a raw vector is R_XLEN_T_MAX.
-- An index into a chunk of the Elt cache is below the chunk's length, so SET_STRING_ELT and STRING_ELT
-- of a chunk raise nothing; beyond it the model reads the blank string and writes nothing.
--
-- Bounds and fuel. next_power_loop has 64 rounds: its variable doubles and stays below 2 ^ 64.
-- unwrap_loop counts the source's own max_unwrap_depth. A data1 is valid from the moment it is
-- installed, so an end offset is never below the one before it. Other loops are structural but one.
-- The outer loop of rebuild_store has as much fuel as records: each turn goes by one at least.
--
-- Not modelled: the AVX2 variant of check_ascii, Inspect, the diagnostic lists for R, who owns a store
-- between its construction and its finalizer (MoveStore, wrap_store_with_cleanup and the cleanup of
-- from_views), the look-ups of C callables, the Rcpp and cpp11 variants, and R code.
pub mod Prelude
pub mod Memory
pub mod Interop
pub mod Sizes
pub mod Words
pub mod Charsxp
pub mod Charpack
pub mod Charvec
pub mod Reader
pub mod Registry
pub mod Tests
