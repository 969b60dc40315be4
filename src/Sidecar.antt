-- ===== src/Sidecar.antt =====
-- internal/sidecar: the `.pget` file that makes a download resumable.
pub mod Base64
pub mod Bitmap
pub mod Hash
pub mod Manager
pub mod Marks
mod Tests
