-- ===== src/Stats.antt =====
-- crates/pnos-net/src/session/stats.rs: the shared counters of the session layer. The handle
-- `SessionStats` is an `Arc` on one set of atomics, so it is modelled by the set itself, which each
-- operation returns anew; a snapshot is the same record, read at one moment. An operation that
-- updates two atomics has a name for each half, since other threads run between the two.
pub mod Lifecycle
mod Runs
use pnos_sdk.Base.{ℕ, ◌+◌, ◌-◌, ◌%◌, ◌^◌, Bool, ◌==◌}

-- A u64 counter: `fetch_add` wraps.
abbrev pub add64 : ℕ → ℕ → ℕ
add64 a b = (a + b) % 2 ^ 64

pub record SessionStats : Type 0 where
  pub established : ℕ
  pub closed : ℕ
  pub active : ℕ
  pub bytes_sent : ℕ
  pub bytes_recv : ℕ
  pub frames_sent : ℕ
  pub frames_recv : ℕ
  pub duplicate_discarded : ℕ
  pub inbound_rejected : ℕ

unfoldable pub new_stats : SessionStats
new_stats = record {
  established = 0;
  closed = 0;
  active = 0;
  bytes_sent = 0;
  bytes_recv = 0;
  frames_sent = 0;
  frames_recv = 0;
  duplicate_discarded = 0;
  inbound_rejected = 0;
}

unfoldable pub add_established : SessionStats → SessionStats
add_established s = record s { established = add64 s.established 1 }

unfoldable pub add_active : SessionStats → SessionStats
add_active s = record s { active = add64 s.active 1 }

unfoldable pub record_established : SessionStats → SessionStats
unfolding add_established add_active
record_established s = add_active (add_established s)

unfoldable pub add_closed : SessionStats → SessionStats
add_closed s = record s { closed = add64 s.closed 1 }

-- `saturating_sub` is the truncated `-`.
unfoldable pub sub_active : SessionStats → SessionStats
sub_active s = record s { active = s.active - 1 }

unfoldable pub record_closed : SessionStats → SessionStats
unfolding add_closed sub_active
record_closed s = sub_active (add_closed s)

unfoldable pub record_bytes_sent : ℕ → SessionStats → SessionStats
record_bytes_sent n s = record s { bytes_sent = add64 s.bytes_sent n }

unfoldable pub record_bytes_recv : ℕ → SessionStats → SessionStats
record_bytes_recv n s = record s { bytes_recv = add64 s.bytes_recv n }

unfoldable pub record_frame_sent : SessionStats → SessionStats
record_frame_sent s = record s { frames_sent = add64 s.frames_sent 1 }

unfoldable pub record_frame_recv : SessionStats → SessionStats
record_frame_recv s = record s { frames_recv = add64 s.frames_recv 1 }

unfoldable pub record_duplicate_discarded : SessionStats → SessionStats
record_duplicate_discarded s = record s { duplicate_discarded = add64 s.duplicate_discarded 1 }

unfoldable pub record_inbound_rejected : SessionStats → SessionStats
record_inbound_rejected s = record s { inbound_rejected = add64 s.inbound_rejected 1 }

unfoldable pub is_consistent : SessionStats → Bool
is_consistent s = s.established - s.closed == s.active
