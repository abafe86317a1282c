-- ===== src/Storage.antt =====
-- storage.h and storage.cxx: the allocator of persistent objects, and the static data of a storage.
pub mod Blocks
pub mod FreePages
pub mod Alloc
pub mod Statics
mod Tests
