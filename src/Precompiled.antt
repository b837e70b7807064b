-- ===== src/Precompiled.antt =====
-- app/precompiled.py: the checks and rewrites that a precompiled letter goes through.
pub mod Overlay
pub mod Extraction
pub mod Validation
pub mod Address
pub mod Sanitise
