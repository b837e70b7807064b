-- ===== src/Preview.antt =====
-- app/preview.py without its endpoints: images of pages, and previews of templated letters.
-- Logging and tracing are left out.
pub mod Details
pub mod Pages
pub mod Letters
pub mod Frame
pub mod Laws
pub mod Uncached
