-- ===== src/Geometry.antt =====
-- The page layout of app/precompiled.py.
pub mod Layout
pub mod Canvas
pub mod Coverage
