-- ===== src/Storage.antt =====
-- src/storage: what is kept across a reboot, and when it is written.
pub mod RecordBlob
pub mod QuietTimer
