-- ===== src/Api.antt =====
-- src/api: the device's HTTP API.
pub mod PairingWindow
pub mod WsTicket
pub mod CredentialStore
pub mod Authenticator
pub mod WebSocket
pub mod Router
pub mod HttpRequest
pub mod WsHub
