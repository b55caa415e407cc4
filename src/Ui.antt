-- ===== src/Ui.antt =====
-- The server of the web interface, src/ui.
pub mod Groups
pub mod Access
pub mod Handlers
pub mod Session
pub mod Login
