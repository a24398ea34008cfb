-- ===== src/Rpc/Hub/Registration.antt =====
-- internal/rpc/hub.go: `Register`, `Touch` and `Unregister` keep the maps of the hub in agreement.
use r0rpc.Prelude.{
  ℕ, pos, ◌+◌, ◌≡◌, refl, ap, ◌∙◌, inl, inr, String, ℤ, none, some, [], ◌∷◌, ◌++◌, ◌==◌, string_eq,
  length, get_elem?, set, if◌then◌else◌, arith, Option-cases,
}
use r0rpc.Prelude.Map.{Map, lookup, insert, delete, lookup-delete, lookup-empty}
use r0rpc.Rpc.Queue.{new_job_queue}
use r0rpc.Rpc.State.{Hub, ClientSession, session, normalize_max_in_flight, new_hub}
use r0rpc.Rpc.Hub.{
  signal_dispatch_locked, remove_client_from_group, leave_old_group, re_register, new_session,
  register, touch, unregister,
}
use r0rpc.Rpc.Hub.Groups.{heap-remove, sessions-remove}
use r0rpc.Rpc.Hub.Lists.{Lists-eq, Lists-remove, added, heap-added, sessions-added}
use r0rpc.Rpc.Hub.Entering.{
  heap-leave, sessions-leave, leave-Lists, enter-IsRegistry, session-allocated, allocated-Points,
}
use r0rpc.Rpc.Hub.Registry.{
  place, Points, IsRegistry, session_cases, session-set, set-Points, Writes-IsRegistry,
}

pub signal-IsRegistry : (h : Hub) (p : ℕ) → IsRegistry h → IsRegistry (signal_dispatch_locked h p)
unfolding signal_dispatch_locked
signal-IsRegistry h p v = elim (Option-cases (get_elem? h.heap p)) [
  | inl e ↦ rw (e, signal_dispatch_locked) v
  | inr (s, e) ↦
      rw (e, signal_dispatch_locked)
        (Writes-IsRegistry h _ p s (record s { dispatch_ready = s.dispatch_ready + 1 })
          (record { at = e; heap = refl; sessions = refl; client = refl })
          (record { groups = refl; orders = refl; cursors = refl }) refl v)
]

-- `Touch` keeps the maps of the hub in agreement.
pub touch-IsRegistry : (h : Hub) (c : String) (now : ℕ) → IsRegistry h → IsRegistry (touch h c now)
unfolding touch
touch-IsRegistry h c now v = elim (session_cases h c v.points) [
  | inl (e, n) ↦ rw (n, touch) v
  | inr (p, s, e, at, n, id) ↦
      rw (n, touch)
        (Writes-IsRegistry h _ p s (record s { last_seen_at = now })
          (record { at = at; heap = refl; sessions = refl; client = refl })
          (record { groups = refl; orders = refl; cursors = refl }) refl v)
]

re_register-IsRegistry :
    (h : Hub) (p : ℕ) (s : ClientSession) (c g : String) (user : ℤ) (platform : String)
    (max now : ℕ)
    → IsRegistry h
    → lookup c h.sessions ≡ some p
    → get_elem? h.heap p ≡ some s
    → s.client_id ≡ c
    → IsRegistry (re_register h p s c g user platform max now)
unfolding re_register
re_register-IsRegistry h p s c g user platform max now v e at id =
    let updated : ClientSession = record s {
      group = g;
      user_id = user;
      platform = platform;
      last_seen_at = now;
      max_in_flight = max;
    } in
    let moved = leave_old_group h s.group g c in
    let stored = record moved { heap = set moved.heap p updated } in
    let (m, free, same, l) = leave-Lists h s.group g c p (ground arith) v.lists in
    let k = added stored g c p in
    let eh : k.heap ≡ set h.heap p updated =
      heap-added stored g c p ∙ ap (λ xs. set xs p updated) (heap-leave h s.group g c p) in
    let es : k.sessions ≡ h.sessions =
      sessions-added stored g c p ∙ sessions-leave h s.group g c p in
    signal-IsRegistry k p (
      enter-IsRegistry h stored g c p updated m
        (set-Points h k p s updated (record { at = at; heap = eh; sessions = es; client = refl })
          v.points)
        (λ d. session-set h k c p s updated d v.points e at eh es) refl free same l)

new_session-IsRegistry :
    (h : Hub) (c g : String) (user : ℤ) (platform : String) (max now : ℕ)
    → IsRegistry h
    → session h c ≡ none
    → IsRegistry (new_session h c g user platform max now)
unfolding new_session
new_session-IsRegistry h c g user platform max now v n =
    let p = length h.heap in
    let s : ClientSession = record {
      client_id = c;
      group = g;
      user_id = user;
      platform = platform;
      last_seen_at = now;
      pending = new_job_queue (pos h.pending_size);
      max_in_flight = max;
      in_flight = 0;
      dispatch_ready = 0;
    } in
    let stored = record h { heap = h.heap ++ s ∷ []; sessions = insert c p h.sessions } in
    let k = added stored g c p in
    let eh : k.heap ≡ h.heap ++ s ∷ [] = heap-added stored g c p in
    let es : k.sessions ≡ insert c p h.sessions = sessions-added stored g c p in
    enter-IsRegistry h stored g c p s (place h) (allocated-Points h k c s eh es v.points refl)
      (session-allocated h k c s eh es v.points) refl (inl (ground arith)) (λ x d. refl) v.lists

-- `Register` keeps the maps of the hub in agreement, for a new client, for one that comes back, and
-- for one that moves to another group.
pub register-IsRegistry :
    (h : Hub) (c g : String) (user : ℤ) (platform : String) (max : ℤ) (now : ℕ)
    → IsRegistry h
    → IsRegistry (register h c g user platform max now).0
unfolding register
register-IsRegistry h c g user platform max now v =
    let m = normalize_max_in_flight h max in
    elim (session_cases h c v.points) [
      | inl (e, n) ↦ rw (n, register) (new_session-IsRegistry h c g user platform m now v n)
      | inr (p, s, e, at, n, id) ↦
          rw (n, register) (re_register-IsRegistry h p s c g user platform m now v e at id)
    ]

unregister_gone :
    (h : Hub) (p : ℕ) (s : ClientSession) (c d : String)
    → Points h
    → session (remove_client_from_group (record h { sessions = delete c h.sessions }) s.group c) d
      ≡ (if c == d then none else session h d)
unregister_gone h p s c d v =
    let k = record h { sessions = delete c h.sessions } in
    elim (session_cases h d v) [
      | inl (e, n) ↦
          ground (
            arith,
            ap (λ m. lookup d m) (sessions-remove k s.group c),
            lookup-delete c d h.sessions,
          )
      | inr (r, t, e, at, n, id) ↦ ground (
        arith,
        ap (λ m. lookup d m) (sessions-remove k s.group c),
        ap (λ xs. get_elem? xs r) (heap-remove k s.group c),
        lookup-delete c d h.sessions,
      )
    ]

unregister-Points :
    (h : Hub) (c g : String)
    → Points h
    → Points (remove_client_from_group (record h { sessions = delete c h.sessions }) g c)
unregister-Points h c g v d r e =
    let k = record h { sessions = delete c h.sessions } in
    let (t, at, id) = v d r (
      ground (arith, ap (λ m. lookup d m) (sessions-remove k g c), lookup-delete c d h.sessions)) in
    (t, rw heap-remove at, id)

-- `Unregister` keeps the maps of the hub in agreement.
pub unregister-IsRegistry : (h : Hub) (c : String) → IsRegistry h → IsRegistry (unregister h c)
unfolding unregister
unregister-IsRegistry h c v = elim (session_cases h c v.points) [
  | inl (e, n) ↦ rw (n, unregister) v
  | inr (p, s, e, at, n, id) ↦
      let k = record h { sessions = delete c h.sessions } in
      rw (n, unregister)
        (signal-IsRegistry (remove_client_from_group k s.group c) p (record {
          points = unregister-Points h c s.group v.points;
          lists =
              Lists-eq (remove_client_from_group k s.group c)
                (λ d. ground (arith, unregister_gone h p s c d v.points))
                (Lists-remove (place h) k s.group c p (ground arith) v.lists);
        }))
]

-- A new hub's maps agree: they are empty.
pub new_hub-IsRegistry :
    (pending_size max_in_flight : ℤ) → IsRegistry (new_hub pending_size max_in_flight)
unfolding new_hub
new_hub-IsRegistry a b = record {
  points = λ c p e. cc (lookup-empty {V = ℕ} c);
  lists = record {
    listed = λ g c. rw (lookup-empty, lookup-empty) refl;
    distinct = λ g. rw lookup-empty tt;
    grouped = λ g c. ground (arith, lookup-empty {V = Map String ℕ} g, lookup-empty {V = ℕ} c);
    cursors = λ g. inl (rw lookup-empty refl);
  };
}
