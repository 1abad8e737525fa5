-- ===== src/Sender.antt =====
-- apps/windows-sender: the loopback capture of the Windows sender.
pub mod Wasapi
