-- ===== src/Player.antt =====
-- How a player advances: levels by experience, skills and magic by tries.
pub mod Levels
pub mod Skills
mod Examples
