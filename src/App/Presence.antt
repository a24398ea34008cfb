-- ===== src/App/Presence.antt =====
-- internal/app/app.go: when the presence of a client is written to the store. A `time.Time` is its
-- nanoseconds since the zero time, and a `time.Duration` an integer of nanoseconds. Each function on
-- the map `lastPresenceFlush` is one critical section.
pub mod Throttle
use r0rpc.Prelude.{
  ℕ, zero, suc, ◌+◌, ◌-◌, ◌*◌, ◌^◌, String, ℤ, pos, negsuc, lt_int, not_positive, times, quotient,
  wrap64, Bool, true, false, not, Option, none, some, List, [], ◌∷◌, string_eq, leb, if◌then◌else◌,
}
use r0rpc.Prelude.Map.{Map, lookup, insert, delete, retain}
use r0rpc.Config.{Config}

abbrev pub second : ℕ
second = 1000000000

-- `now.Sub(last)`
abbrev pub time_sub : ℕ → ℕ → ℤ
time_sub now last = if leb last now then pos (now - last) else negsuc (last - now - 1)

unfoldable pub device_offline_grace : Config → ℤ
device_offline_grace cfg =
    let seconds =
      if not_positive cfg.device_offline_seconds
      then (if not_positive cfg.device_offline_minutes
          then pos 20
          else times cfg.device_offline_minutes 60)
      else cfg.device_offline_seconds in
    times seconds second

unfoldable pub cleanup_interval : Config → ℤ
unfolding device_offline_grace
cleanup_interval cfg =
    let interval = quotient (device_offline_grace cfg) 4 in
    let raised = if lt_int interval (pos (5 * second)) then pos (5 * second) else interval in
    if lt_int (pos (60 * second)) raised then pos (60 * second) else raised

unfoldable pub presence_flush_interval : Config → ℤ
presence_flush_interval cfg =
    times (if not_positive cfg.presence_flush_seconds then pos 15 else cfg.presence_flush_seconds)
      second

abbrev pub is_recent_flush : ℤ → ℕ → Option ℕ → Bool
is_recent_flush interval now none = false
is_recent_flush interval now (some last) = lt_int (time_sub now last) interval

unfoldable pub should_flush_presence : ℤ → Map String ℕ → String → ℕ → Map String ℕ × Bool
should_flush_presence interval m client_id now =
    if is_recent_flush interval now (lookup client_id m)
    then (m, false)
    else (insert client_id now m, true)

unfoldable pub mark_presence_flushed : Map String ℕ → String → ℕ → Map String ℕ
mark_presence_flushed m client_id now = insert client_id now m

unfoldable pub reset_presence_flush : Map String ℕ → String → Map String ℕ
reset_presence_flush m client_id = delete client_id m

-- `deviceOfflineGrace() + presenceFlushInterval()*2`, which wraps around.
unfoldable pub keep_for : ℤ → ℤ → ℤ
keep_for (pos grace) (pos interval) = wrap64 (grace + interval * 2)
keep_for (negsuc grace) (pos interval) = wrap64 (2 ^ 64 - suc grace + interval * 2)
keep_for (pos grace) (negsuc interval) = wrap64 (grace + 2 ^ 64 * 2 - suc interval * 2)
keep_for (negsuc grace) (negsuc interval) = wrap64 (2 ^ 64 * 3 - suc grace - suc interval * 2)

unfoldable pub cleanup_presence_cache : ℤ → Map String ℕ → ℕ → Map String ℕ
cleanup_presence_cache keep m now = retain (λ last. not (lt_int keep (time_sub now last))) m

-- The critical sections on the map, in the order in which they happen.
pub data PresenceOp : Type 0 where
  flushes : String → ℕ → PresenceOp
  marks : String → ℕ → PresenceOp
  resets : String → PresenceOp
  cleans : ℕ → PresenceOp

unfoldable pub run_presence : ℤ → ℤ → Map String ℕ → List PresenceOp → Map String ℕ
run_presence interval keep m [] = m
run_presence interval keep m (flushes c now ∷ ops) =
    run_presence interval keep (should_flush_presence interval m c now).0 ops
run_presence interval keep m (marks c now ∷ ops) =
    run_presence interval keep (mark_presence_flushed m c now) ops
run_presence interval keep m (resets c ∷ ops) =
    run_presence interval keep (reset_presence_flush m c) ops
run_presence interval keep m (cleans now ∷ ops) =
    run_presence interval keep (cleanup_presence_cache keep m now) ops
