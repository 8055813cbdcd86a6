-- ===== src/Net.antt =====
-- src/net: the MultiViewer poller and what it reads.
pub mod Schedule
pub mod QueryString
pub mod MvLink
pub mod StreamRead
pub mod MultiViewer
