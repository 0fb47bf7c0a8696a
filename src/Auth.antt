-- ===== src/Auth.antt =====
-- backend/src/admin_auth.rs: the limit on attempts to sign in, and the address of a client behind proxies.
pub mod Limiter
pub mod Bounded
pub mod Blocking
pub mod Held
pub mod Release
pub mod Proxy
pub mod Hops
pub mod Tests
