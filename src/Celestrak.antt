-- ===== src/Celestrak.antt =====
-- The CelesTrak driver (app/core/celestrak): its errors, the HTTP client and the client registry.
pub mod Types
pub mod Client
pub mod Registry
