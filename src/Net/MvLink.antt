-- ===== src/Net/MvLink.antt =====
-- src/net/mv_link.cpp: what crosses between the poller's task and the app's.
-- Every operation is one step under the lock, or one access of the atomic. Strings are bounded as
-- `strncpy` bounds them. What a snapshot holds is an argument.
pub mod Mailbox
use matrix_faces.Common.{
  ℕ, ◌-◌, Bool, true, false, not, List, [], ◌∷◌, Option, none, some, ltb, if◌then◌else◌, Bytes,
  take,
}

-- `kHostCap`.
abbrev pub host_cap : ℕ
host_cap = 32

pub record MvLink (S : Type 0) : Type 0 where
  pub snapshot : S
  pub host : Bytes
  pub host_changed : Bool
  pub poll_enabled : Bool

module _ {S : Type 0} where
  -- `publish` and `read`.
  unfoldable pub publish : S → MvLink S → MvLink S
  publish snapshot link = record link { snapshot = snapshot }

  unfoldable pub read : MvLink S → S
  read link = link.snapshot

  -- `requestHost`; `none` is the null pointer.
  unfoldable pub request_host : Option Bytes → MvLink S → MvLink S
  request_host none link = record link { host = []; host_changed = true }
  request_host (some host) link = record link {
    host = take (host_cap - 1) host;
    host_changed = true;
  }

  -- `takeHostChange`: `none` is false, and the inner `none` that nothing is written to `out`.
  unfoldable pub take_host_change : ℕ → MvLink S → Option (Option Bytes) × MvLink S
  take_host_change cap link = if not link.host_changed then (none, link) else (
    some (if ltb 0 cap then some (take (cap - 1) link.host) else none),
    record link { host_changed = false },
  )

  -- `setPollEnabled` and `pollEnabled`.
  unfoldable pub set_poll_enabled : Bool → MvLink S → MvLink S
  set_poll_enabled enabled link = record link { poll_enabled = enabled }
