-- ===== src/Frontend.antt =====
-- The state and the calculations of LoRaDB-UI/frontend/src.
pub mod Layout
pub mod Query
pub mod Kpi
pub mod Frames
pub mod WidgetData
pub mod Select
pub mod Storage
