-- ===== src/Rpc/Hub/Bounds.antt =====
-- internal/rpc/hub.go: the bounds of every session on the heap, and that registrations keep them.
use r0rpc.Prelude.{
  ℕ, ◌+◌, ◌≤◌, ◌≡◌, refl, ◌∙◌, inl, inr, String, ℤ, pos, negsuc, zero, suc, some, string_eq,
  get_elem?, set, arith, max, Option-cases, AllOf, AllOf-set, AllOf-get, AllOf-append,
}
use r0rpc.Prelude.Map.{lookup}
use r0rpc.Rpc.Queue.{queue_limit}
use r0rpc.Rpc.Queue.Contents.{IsBounded, new_queue-IsBounded, limit-new_queue}
use r0rpc.Rpc.State.{Hub, ClientSession, session, normalize_max_in_flight}
use r0rpc.Rpc.Hub.Groups.{heap-remove}
use r0rpc.Rpc.Hub.Entering.{heap-leave}
use r0rpc.Rpc.Hub.Lists.{added, heap-added}
use r0rpc.Rpc.Hub.{
  signal_dispatch_locked, leave_old_group, re_register, new_session, register, touch, unregister,
}

-- The most calls that a session of this hub may have in flight: an explicit request is cut at 1024,
-- the default is not.
abbrev pub flight_cap : Hub → ℕ
flight_cap h = max 1024 h.default_max_in_flight

pub record IsSound (cap limit : ℕ) (s : ClientSession) : Type 0 where
  pub bounded : IsBounded s.pending
  pub limited : s.pending.limit ≡ limit
  pub flights : s.in_flight ≤ cap
  pub max_flights : s.max_in_flight ≤ cap

-- Every session that was ever allocated has a queue within its limit, and calls in flight within the
-- cap; also one that is registered no longer.
abbrev pub AllSound : Hub → Type 0
AllSound h = AllOf (IsSound (flight_cap h) (queue_limit (pos h.pending_size))) h.heap

normalize_le : (h : Hub) (n : ℤ) → normalize_max_in_flight h n ≤ flight_cap h
unfolding normalize_max_in_flight
normalize_le h (pos zero) = omega arith
normalize_le h (pos (suc n)) = ground arith
normalize_le h (negsuc n) = omega arith

module _ (cap limit : ℕ) where
  abbrev pub Sound : Hub → Type 0
  Sound h = AllOf (IsSound cap limit) h.heap

  pub signal-Sound : (h : Hub) (p : ℕ) → Sound h → Sound (signal_dispatch_locked h p)
  unfolding signal_dispatch_locked
  signal-Sound h p a = elim (Option-cases (get_elem? h.heap p)) [
    | inl e ↦ rw (e, signal_dispatch_locked) a
    | inr (s, e) ↦
        let o = AllOf-get (IsSound cap limit) h.heap p a e in
        rw (e, signal_dispatch_locked)
          (AllOf-set (IsSound cap limit) h.heap p
            (record s { dispatch_ready = s.dispatch_ready + 1 }) a
            (record {
              bounded = o.bounded;
              limited = o.limited;
              flights = o.flights;
              max_flights = o.max_flights;
            }))
  ]

  re_register-Sound :
      (h : Hub) (p : ℕ) (s : ClientSession) (c g : String) (user : ℤ) (platform : String)
      (max now : ℕ)
      → max ≤ cap
      → IsSound cap limit s
      → Sound h
      → Sound (re_register h p s c g user platform max now)
  unfolding re_register
  re_register-Sound h p s c g user platform max now le o a =
      let moved = leave_old_group h s.group g c in
      let updated : ClientSession = record s {
        group = g;
        user_id = user;
        platform = platform;
        last_seen_at = now;
        max_in_flight = max;
      } in
      let stored = record moved { heap = set moved.heap p updated } in
      let ok : IsSound cap limit updated = record {
        bounded = o.bounded;
        limited = o.limited;
        flights = o.flights;
        max_flights = le;
      } in
      signal-Sound (added stored g c p) p
        (rw (heap-added, heap-leave) (AllOf-set (IsSound cap limit) h.heap p updated a ok))

  new_session-Sound :
      (h : Hub) (c g : String) (user : ℤ) (platform : String) (max now : ℕ)
      → max ≤ cap
      → queue_limit (pos h.pending_size) ≡ limit
      → Sound h
      → Sound (new_session h c g user platform max now)
  unfolding new_session
  new_session-Sound h c g user platform max now le e a = rw heap-added (
      AllOf-append (IsSound cap limit) h.heap _ a (
        record {
          bounded = new_queue-IsBounded (pos h.pending_size);
          limited = limit-new_queue (pos h.pending_size) ∙ e;
          flights = omega arith;
          max_flights = le;
        },
        tt,
      ))

pub session_found :
    (h : Hub) (c : String) (p : ℕ) (s : ClientSession)
    → session h c ≡ some (p, s)
    → get_elem? h.heap p ≡ some s
session_found h c p s e = elim (Option-cases (lookup c h.sessions)) [
  | inl n ↦ ground arith
  | inr (q, f) ↦ ground arith
]

-- Every call of `Register`, `Touch` and `Unregister` keeps every session within its bounds.
pub register-AllSound :
    (h : Hub) (c g : String) (user : ℤ) (platform : String) (max : ℤ) (now : ℕ)
    → AllSound h
    → Sound
        (flight_cap h)
        (queue_limit (pos h.pending_size))
        (register h c g user platform max now).0
unfolding register
register-AllSound h c g user platform max now a =
    let m = normalize_max_in_flight h max in
    let le = normalize_le h max in
    let limit = queue_limit (pos h.pending_size) in
    elim (Option-cases (session h c)) [
      | inl n ↦
          rw (n, register)
            (new_session-Sound (flight_cap h) limit h c g user platform m now le refl a)
      | inr ((p, s), n) ↦
          rw (n, register)
            (re_register-Sound (flight_cap h) limit h p s c g user platform m now le
              (AllOf-get (IsSound (flight_cap h) limit) h.heap p a (session_found h c p s n)) a)
    ]

module _ (cap limit : ℕ) where
  pub touch-Sound :
      (h : Hub) (c : String) (now : ℕ) → Sound cap limit h → Sound cap limit (touch h c now)
  unfolding touch
  touch-Sound h c now a = elim (Option-cases (session h c)) [
    | inl n ↦ rw (n, touch) a
    | inr ((p, s), n) ↦
        let o = AllOf-get (IsSound cap limit) h.heap p a (session_found h c p s n) in
        rw (n, touch)
          (AllOf-set (IsSound cap limit) h.heap p (record s { last_seen_at = now }) a
            (record {
              bounded = o.bounded;
              limited = o.limited;
              flights = o.flights;
              max_flights = o.max_flights;
            }))
  ]

  pub unregister-Sound :
      (h : Hub) (c : String) → Sound cap limit h → Sound cap limit (unregister h c)
  unfolding unregister
  unregister-Sound h c a = elim (Option-cases (session h c)) [
    | inl n ↦ rw (n, unregister) a
    | inr ((p, s), n) ↦ rw (n, unregister) (signal-Sound cap limit _ p (rw heap-remove a))
  ]
