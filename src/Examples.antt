-- ===== src/Examples.antt =====
-- The theorems at concrete engines, events and clocks.
mod Data
mod Pipelines
mod Limits
mod Routes
mod Panels
mod Systems
mod Pages
mod Sites
