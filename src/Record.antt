-- ===== src/Record.antt =====
-- Record files: record/. The bitmap of a page, the layout of a file, the operations on a page and
-- those of a file handle over the buffer pool.
pub mod Bitmap
pub mod Layout
pub mod Page
pub mod FileHandle
pub mod Scan
mod Tests
