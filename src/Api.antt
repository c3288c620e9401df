-- ===== src/Api.antt =====
-- The dashboard's API: api/ratelimit.py, api/auth.py and the login of api/main.py.
pub mod ClientIp
pub mod Login
pub mod Access
pub mod Settings
pub mod Evidence
pub mod Socket
