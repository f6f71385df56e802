-- ===== src/Access.antt =====
-- Who may connect and who may enter the game.
pub mod Ban
pub mod WaitingList
mod Examples
