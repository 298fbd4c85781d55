-- ===== src/Upload.antt =====
-- src/modules/upload: presigned uploads, their confirmation, and the sweeps that remove them.
pub mod StoredFile
pub mod Repository
pub mod Storage
pub mod Confirm
pub mod Sweep
pub mod Listing
mod Examples
