-- ===== src/Net/MultiViewer.antt =====
-- src/net/multiviewer_parse.cpp: what the live timing says, read out of a response.
pub mod Scan
pub mod Session
pub mod Topics
pub mod RaceControl
pub mod Response
pub mod Restart
pub mod Bounds
pub mod Sound
pub mod Endings
pub mod Objects
pub mod Dict
