-- ===== src/Tracking.antt =====
-- The domain (app/tracking): its pure services, and the use cases on the database.
pub mod Passes
pub mod Models
pub mod Repos
pub mod Ingest
pub mod Geometry
pub mod Geojson
pub mod Predict
pub mod Stations
pub mod Views
pub mod Recompute
