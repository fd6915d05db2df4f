-- ===== src/UserPlane.antt =====
-- The user plane's service: src/userplane/service.py, and src/userplane/base.py's Session.
pub mod Service
pub mod Release
mod Examples
