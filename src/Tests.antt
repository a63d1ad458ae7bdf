-- ===== src/Tests.antt =====
-- Runs of the definitions at concrete inputs, and the theorems at inputs that meet their hypotheses.
mod Jobs
mod Events
mod Celestrak
mod Passes
mod Ingest
mod Pages
mod Predict
mod Stations
mod Migration
mod Api
mod Views
mod Recompute
mod Loop
mod AsJob
mod App
