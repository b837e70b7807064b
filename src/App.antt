-- ===== src/App.antt =====
-- The Flask application: its requests and responses, the endpoints of app/preview.py,
-- app/precompiled.py and app/status.py, and what app/__init__.py puts round them. Which function a
-- URL leads to is Flask's routing, and is left out: an endpoint is named by its function.
pub mod Http
pub mod Config
pub mod Logging
pub mod Performance
pub mod Handlers
pub mod Previews
pub mod Precompiled
pub mod Status
pub mod Frame
pub mod Serve
