-- ===== src/ImageGc.antt =====
-- crates/pier-core/src/docker/image_gc.rs: which images are dangling, orphaned or in use, and the removal
-- of the orphans. A set of texts is a list; the lists of Docker are arguments.
pub mod Compose
pub mod Protected
pub mod Needed
pub mod Scan
pub mod Free
pub mod Removal
pub mod Written
pub mod Declared
mod Tests
