-- ===== src/Lib.antt =====
-- MatrixFaces: firmware for LED matrix boards with a signed HTTP API.
--
-- A request reaches src/api over a socket. The router finds its handler; the authenticator checks
-- the HMAC of the canonical request (lib/apiauth) under the secret of a paired client, which the
-- credential store keeps in a checksummed blob (src/storage), and refuses replays. A WebSocket is
-- opened with a ticket that a signed request asked for. Meanwhile a poller asks MultiViewer for the
-- state of a race (src/net) and hands it to the app that draws it, through a link under a lock.
-- src/board has what the boards share: queues, buttons, counters.
--
-- Files and code:
--   Common       lists, options, bits and tests on native numbers; a byte is a number below 256, a
--                string the list of the bytes before its NUL
--   Digest       the block buffer and the padding that SHA-256 and SHA-1 have in common
--   ApiAuth      lib/apiauth: Hex (hex.cpp), Sha256 (sha256.cpp), Hmac (hmac_sha256.cpp), RequestSig
--                (request_sig.cpp), AuthHeader (auth_header.cpp)
--   Storage      src/storage: RecordBlob (record_blob.cpp), QuietTimer (quiet_timer.h)
--   Api          src/api: CredentialStore, Authenticator, PairingWindow, WsTicket, Router, WebSocket,
--                HttpRequest and WsHub, each for the .cpp of that name
--   Net          src/net: Schedule (mv_schedule.cpp), QueryString (query_string.cpp), MvLink
--                (mv_link.cpp), StreamRead (stream_read.cpp), MultiViewer (multiviewer_parse.cpp)
--   Board        src/board: Ring (ring.h), Button (button.cpp), Metrics (metrics_counters.h)
--   Apps         src/apps: Scheduler (app_scheduler.cpp), Settings (settings_bag.cpp), SettingsStore
--                (app_settings_store.cpp)
--   Tests        the theorems on concrete inputs
--
-- Names are those of the code in snake case: `parseAuthHeader` is `parse_auth_header`. State is a
-- record that an operation takes and returns; an output buffer is part of the result; `Option` is
-- the code's false or null. Unsigned arithmetic keeps its wrap (`% 2 ^ 32`). Clocks, random bytes,
-- pin levels and the storage of a board are arguments.
--
-- A socket is what its reads find: for src/net/stream_read.cpp a list of passes, which a call
-- leaves shorter for the next, and for the WebSocket hub the bytes that have come for each client.
-- The members that settings are bound to are addresses in a memory, so that two settings could
-- share one; the theorems that need it say that none do. `long` has the boards' 32 bits, and
-- `strtol` stops at its limits.
--
-- Loops on fuel: the parameters of a header (one unit for each byte and two more), the input of
-- SHA-256 (one for each byte), the padding of the digests (64), the scan of a query (one for each
-- byte and one more), the frames of a WebSocket buffer (one for each byte and one more), the entries
-- of an object (one for each byte). Every pass of these loops takes a byte at least, or fills one of
-- the block. The loop over the header lines counts down the 40 that the code allows.
--
-- Not modelled: the handlers and the responses that they print, what the apps draw, the
-- MultiViewer client, the drivers of the boards, logging, and the timing that
-- `constantTimeEquals` is named for. lib/Adafruit_Protomatter is a third party's.
pub mod Common
pub mod Digest
pub mod ApiAuth
pub mod Storage
pub mod Api
pub mod Board
pub mod Apps
pub mod Net
mod Tests
