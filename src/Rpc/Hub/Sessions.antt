-- ===== src/Rpc/Hub/Sessions.antt =====
-- internal/rpc/hub.go: the session that a client has after `Register`, and after `Touch`.
use r0rpc.Prelude.{
  ℕ, pos, ◌+◌, ◌≡◌, refl, sym, some-injective, ap, ◌∙◌, inl, inr, String, ℤ, some, [], ◌∷◌, ◌++◌,
  string_eq, same_refl, length, get_elem?, set, arith, get_elem?-set_self, get_elem?-lt,
}
use r0rpc.Prelude.Map.{lookup, insert}
use r0rpc.Rpc.Queue.{new_job_queue}
use r0rpc.Rpc.State.{Hub, ClientSession, session, normalize_max_in_flight}
use r0rpc.Rpc.Hub.{
  signal_dispatch_locked, leave_old_group, re_register, new_session, register, touch,
}
use r0rpc.Rpc.Hub.Lists.{added, heap-added, sessions-added}
use r0rpc.Rpc.Hub.Entering.{heap-leave, sessions-leave, session-allocated}
use r0rpc.Rpc.Hub.Registry.{IsRegistry, session_cases}

-- A client's session is one of the group, of the user and with the limit.
pub record Serves (h : Hub) (c g : String) (user : ℤ) (platform : String) (max : ℕ) : Type 0 where
  pub place : ℕ
  pub holder : ClientSession
  pub found : session h c ≡ some (place, holder)
  pub group : holder.group ≡ g
  pub user_id : holder.user_id ≡ user
  pub platform_kept : holder.platform ≡ platform
  pub limit : holder.max_in_flight ≡ max

-- A place of the heap that holds such a session, with the client's entry for it.
at_place :
    (h : Hub) (c g : String) (user : ℤ) (platform : String) (max p : ℕ) (s : ClientSession)
    → lookup c h.sessions ≡ some p
    → get_elem? h.heap p ≡ some s
    → s.group ≡ g
    → s.user_id ≡ user
    → s.platform ≡ platform
    → s.max_in_flight ≡ max
    → Serves h c g user platform max
at_place h c g user platform max p s e at eg eu ep em = record {
  place = p;
  holder = s;
  found = ground (arith, e, at);
  group = eg;
  user_id = eu;
  platform_kept = ep;
  limit = em;
}

signal-Serves :
    (h : Hub) (c g : String) (user : ℤ) (platform : String) (max p : ℕ) (s : ClientSession)
    → lookup c h.sessions ≡ some p
    → get_elem? h.heap p ≡ some s
    → s.group ≡ g
    → s.user_id ≡ user
    → s.platform ≡ platform
    → s.max_in_flight ≡ max
    → Serves (signal_dispatch_locked h p) c g user platform max
unfolding signal_dispatch_locked
signal-Serves h c g user platform max p s e at eg eu ep em =
    rw (at, signal_dispatch_locked)
      (at_place _ c g user platform max p (record s { dispatch_ready = s.dispatch_ready + 1 }) e
        (get_elem?-set_self h.heap p _ (get_elem?-lt h.heap p at)) eg eu ep em)

module _ (h : Hub) (c g : String) (user : ℤ) (platform : String) where
  re_register-Serves :
      (p : ℕ) (s : ClientSession) (max now : ℕ)
      → lookup c h.sessions ≡ some p
      → get_elem? h.heap p ≡ some s
      → Serves (re_register h p s c g user platform max now) c g user platform max
  unfolding re_register
  re_register-Serves p s max now e at =
      let updated : ClientSession = record s {
        group = g;
        user_id = user;
        platform = platform;
        last_seen_at = now;
        max_in_flight = max;
      } in
      let moved = leave_old_group h s.group g c in
      let stored = record moved { heap = set moved.heap p updated } in
      let k = added stored g c p in
      let eh : k.heap ≡ set h.heap p updated =
        heap-added stored g c p ∙ ap (λ xs. set xs p updated) (heap-leave h s.group g c p) in
      let es : k.sessions ≡ h.sessions =
        sessions-added stored g c p ∙ sessions-leave h s.group g c p in
      signal-Serves k c g user platform max p updated (ap (λ m. lookup c m) es ∙ e)
        (ap (λ l. get_elem? l p) eh
          ∙ get_elem?-set_self h.heap p updated (get_elem?-lt h.heap p at))
        refl refl refl refl

  new_session-Serves :
      (max now : ℕ)
      → IsRegistry h
      → Serves (new_session h c g user platform max now) c g user platform max
  unfolding new_session
  new_session-Serves max now v =
      let p = length h.heap in
      let s : ClientSession = record {
        client_id = c;
        group = g;
        user_id = user;
        platform = platform;
        last_seen_at = now;
        pending = new_job_queue (pos h.pending_size);
        max_in_flight = max;
        in_flight = 0;
        dispatch_ready = 0;
      } in
      let stored = record h { heap = h.heap ++ s ∷ []; sessions = insert c p h.sessions } in
      let k = added stored g c p in
      let eh : k.heap ≡ h.heap ++ s ∷ [] = heap-added stored g c p in
      let es : k.sessions ≡ insert c p h.sessions = sessions-added stored g c p in
      record {
        place = p;
        holder = s;
        found = ground (arith, session-allocated h k c s eh es v.points c, same_refl c);
        group = refl;
        user_id = refl;
        platform_kept = refl;
        limit = refl;
      }

  pub register-Serves :
      (n : ℤ) (now : ℕ)
      → IsRegistry h
      → Serves
          (register h c g user platform n now).0
          c
          g
          user
          platform
          (normalize_max_in_flight h n)
  unfolding register
  register-Serves n now v =
      let m = normalize_max_in_flight h n in
      elim (session_cases h c v.points) [
        | inl (e, none_there) ↦ rw (none_there, register) (new_session-Serves m now v)
        | inr (p, s, e, at, there, id) ↦ rw (there, register) (re_register-Serves p s m now e at)
      ]

  pub touch-Serves :
      (max now : ℕ)
      → IsRegistry h
      → Serves h c g user platform max
      → Serves (touch h c now) c g user platform max
  unfolding touch
  touch-Serves max now v s = elim (session_cases h c v.points) [
    | inl (e, none_there) ↦ rw (none_there, touch) s
    | inr (p, t, e, at, there, id) ↦
        let same = some-injective _ _ (sym s.found ∙ there) in
        rw (there, touch)
          (at_place _ c g user platform max p (record t { last_seen_at = now }) e
            (get_elem?-set_self h.heap p _ (get_elem?-lt h.heap p at))
            (ap (λ (x : ℕ × ClientSession). x.1.group) (sym same) ∙ s.group)
            (ap (λ (x : ℕ × ClientSession). x.1.user_id) (sym same) ∙ s.user_id)
            (ap (λ (x : ℕ × ClientSession). x.1.platform) (sym same) ∙ s.platform_kept)
            (ap (λ (x : ℕ × ClientSession). x.1.max_in_flight) (sym same) ∙ s.limit))
  ]
