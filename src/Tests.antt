-- ===== src/Tests.antt =====
-- Each theorem on a concrete input.
mod ApiAuth
mod Api
mod Replay
mod Board
mod Net
mod Storage
mod Apps
mod HttpRequest
mod WsHub
mod Settings
mod MultiViewer
mod SettingsStore
