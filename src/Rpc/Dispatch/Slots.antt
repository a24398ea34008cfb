-- ===== src/Rpc/Dispatch/Slots.antt =====
-- internal/rpc/hub.go: the slots for calls in flight, and what a push, a pop and a release change.
use r0rpc.Prelude.{
  ℕ, ◌≡◌, refl, ◌∙◌, inl, inr, String, Option, some, string_eq, get_elem?, set, arith, ltb, by_if,
  Option-cases, ltb→lt, AllOf-set, AllOf-get,
}
use r0rpc.Rpc.Job.{Job}
use r0rpc.Rpc.Queue.Contents.{push-IsBounded, pop-IsBounded, limit-push, limit-pop}
use r0rpc.Rpc.State.{Hub, ClientSession, session}
use r0rpc.Rpc.Hub.Registry.{IsRegistry, Writes-IsRegistry}
use r0rpc.Rpc.Hub.Registration.{signal-IsRegistry}
use r0rpc.Rpc.Hub.Bounds.{IsSound, Sound, session_found, signal-Sound}
use r0rpc.Rpc.Dispatch.{Turn, acquire_turn, release_dispatch_locked, push_pending, pop_pending}

-- The hub with another session in a place of the heap.
abbrev pub written : Hub → ℕ → ClientSession → Hub
written h p s = record h { heap = set h.heap p s }

module _ (h : Hub) (p : ℕ) (s s' : ClientSession) (at : get_elem? h.heap p ≡ some s) where
  pub written-IsRegistry :
      s'.client_id ≡ s.client_id → s'.group ≡ s.group → IsRegistry h → IsRegistry (written h p s')
  written-IsRegistry ec eg v =
      Writes-IsRegistry h (written h p s') p s s'
        (record { at = at; heap = refl; sessions = refl; client = ec })
        (record { groups = refl; orders = refl; cursors = refl }) eg v

-- A property that a write to a session keeps, if the session keeps its client and its group.
abbrev Kept : (Hub → Type 0) → Type 0
Kept P =
    (h : Hub) (p : ℕ) (s s' : ClientSession)
    → get_elem? h.heap p ≡ some s
    → s'.client_id ≡ s.client_id
    → s'.group ≡ s.group
    → P h
    → P (written h p s')

module _ (h : Hub) (p now : ℕ) where
  pub push_pending-IsRegistry :
      (job : Option Job) → IsRegistry h → IsRegistry (push_pending h p now job).0
  unfolding push_pending
  push_pending-IsRegistry job v = elim (Option-cases (get_elem? h.heap p)) [
    | inl e ↦ rw (e, push_pending) v
    | inr (s, e) ↦ rw (e, push_pending) (written-IsRegistry h p s _ e refl refl v)
  ]

  pub pop_pending-IsRegistry : IsRegistry h → IsRegistry (pop_pending h p now).0
  unfolding pop_pending
  pop_pending-IsRegistry v = elim (Option-cases (get_elem? h.heap p)) [
    | inl e ↦ rw (e, pop_pending) v
    | inr (s, e) ↦ rw (e, pop_pending) (written-IsRegistry h p s _ e refl refl v)
  ]

module _ (h : Hub) (c : String) where
  pub acquire-IsRegistry : IsRegistry h → IsRegistry (acquire_turn h c).0
  unfolding acquire_turn
  acquire-IsRegistry v = elim (Option-cases (session h c)) [
    | inl n ↦ rw (n, acquire_turn) v
    | inr ((p, s), n) ↦
        rw (n, acquire_turn)
          (by_if (λ (r : Hub × Turn). IsRegistry r.0) (ltb s.in_flight s.max_in_flight)
            (λ _. written-IsRegistry h p s _ (session_found h c p s n) refl refl v) λ _. v)
  ]

  pub release-IsRegistry : IsRegistry h → IsRegistry (release_dispatch_locked h c)
  unfolding release_dispatch_locked
  release-IsRegistry v = elim (Option-cases (session h c)) [
    | inl n ↦ rw (n, release_dispatch_locked) v
    | inr ((p, s), n) ↦
        rw (n, release_dispatch_locked)
          (signal-IsRegistry _ p (written-IsRegistry h p s _ (session_found h c p s n) refl refl v))
  ]

module _ (cap limit : ℕ) (h : Hub) where
  pub push_pending-Sound :
      (p now : ℕ) (job : Option Job)
      → Sound cap limit h
      → Sound cap limit (push_pending h p now job).0
  unfolding push_pending
  push_pending-Sound p now job a = elim (Option-cases (get_elem? h.heap p)) [
    | inl e ↦ rw (e, push_pending) a
    | inr (s, e) ↦
        let o = AllOf-get (IsSound cap limit) h.heap p a e in
        rw (e, push_pending)
          (AllOf-set (IsSound cap limit) h.heap p _ a (record {
            bounded = push-IsBounded s.pending now job o.bounded;
            limited = limit-push s.pending now job ∙ o.limited;
            flights = o.flights;
            max_flights = o.max_flights;
          }))
  ]

  pub pop_pending-Sound : (p now : ℕ) → Sound cap limit h → Sound cap limit (pop_pending h p now).0
  unfolding pop_pending
  pop_pending-Sound p now a = elim (Option-cases (get_elem? h.heap p)) [
    | inl e ↦ rw (e, pop_pending) a
    | inr (s, e) ↦
        let o = AllOf-get (IsSound cap limit) h.heap p a e in
        rw (e, pop_pending)
          (AllOf-set (IsSound cap limit) h.heap p _ a (record {
            bounded = pop-IsBounded s.pending now o.bounded;
            limited = limit-pop s.pending now ∙ o.limited;
            flights = o.flights;
            max_flights = o.max_flights;
          }))
  ]

  pub acquire-Sound : (c : String) → Sound cap limit h → Sound cap limit (acquire_turn h c).0
  unfolding acquire_turn
  acquire-Sound c a = elim (Option-cases (session h c)) [
    | inl n ↦ rw (n, acquire_turn) a
    | inr ((p, s), n) ↦
        let o = AllOf-get (IsSound cap limit) h.heap p a (session_found h c p s n) in
        rw (n, acquire_turn)
          (by_if (λ (r : Hub × Turn). Sound cap limit r.0) (ltb s.in_flight s.max_in_flight)
            (λ below. AllOf-set (IsSound cap limit) h.heap p _ a (record {
              bounded = o.bounded;
              limited = o.limited;
              flights = omega (arith, ltb→lt _ _ below, o.max_flights);
              max_flights = o.max_flights;
            }))
            λ _. a)
  ]

  pub release-Sound :
      (c : String) → Sound cap limit h → Sound cap limit (release_dispatch_locked h c)
  unfolding release_dispatch_locked
  release-Sound c a = elim (Option-cases (session h c)) [
    | inl n ↦ rw (n, release_dispatch_locked) a
    | inr ((p, s), n) ↦
        let o = AllOf-get (IsSound cap limit) h.heap p a (session_found h c p s n) in
        rw (n, release_dispatch_locked)
          (signal-Sound cap limit _ p (
            AllOf-set (IsSound cap limit) h.heap p _ a (record {
              bounded = o.bounded;
              limited = o.limited;
              flights = omega (arith, o.flights);
              max_flights = o.max_flights;
            })))
  ]
