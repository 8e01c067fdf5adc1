-- ===== src/Gui.antt =====
-- The modules under src/gui/.
pub mod Colors
pub mod Start
pub mod Menu
