-- ===== src/Rpc/Hub/Frame.antt =====
-- internal/rpc/hub.go: what registrations do to the sessions on the heap, and what they leave alone.
use r0rpc.Prelude.{
  ℕ, ◌≡◌, refl, ◌∙◌, inl, inr, String, ℤ, List, [], ◌∷◌, ◌==◌, string_eq, set, arith, max, by_if,
  Option-cases,
}
use r0rpc.Prelude.Map.{delete}
use r0rpc.Rpc.State.{Hub, ClientSession, session, normalize_max_in_flight, order}
use r0rpc.Rpc.Hub.Groups.{others}
use r0rpc.Rpc.Hub.Lists.{added}
use r0rpc.Rpc.Hub.{
  signal_dispatch_locked, ensure_group, ensure_order, remove_from_order, remove_client_from_group,
  leave_old_group, re_register, new_session, register, touch, unregister,
}

-- Two hubs with the same calls and the same limits.
pub record SameCalls (h h' : Hub) : Type 0 where
  pub waiters : h'.waiters ≡ h.waiters
  pub completed : h'.completed ≡ h.completed
  pub channels : h'.channels ≡ h.channels
  pub pending_size : h'.pending_size ≡ h.pending_size
  pub default_max : h'.default_max_in_flight ≡ h.default_max_in_flight

pub SameCalls-refl : (h : Hub) → SameCalls h h
SameCalls-refl h = record {
  waiters = refl;
  completed = refl;
  channels = refl;
  pending_size = refl;
  default_max = refl;
}

pub SameCalls-trans : (h k l : Hub) → SameCalls h k → SameCalls k l → SameCalls h l
SameCalls-trans h k l a b = record {
  waiters = b.waiters ∙ a.waiters;
  completed = b.completed ∙ a.completed;
  channels = b.channels ∙ a.channels;
  pending_size = b.pending_size ∙ a.pending_size;
  default_max = b.default_max ∙ a.default_max;
}

signal-SameCalls : (h : Hub) (p : ℕ) → SameCalls h (signal_dispatch_locked h p)
unfolding signal_dispatch_locked
signal-SameCalls h p = ground arith

remove_from_order-SameCalls :
    (h : Hub) (g : String) (xs : List String) → SameCalls h (remove_from_order h g xs)
unfolding remove_from_order
remove_from_order-SameCalls h g [] = ground arith
remove_from_order-SameCalls h g (x ∷ xs) = ground arith

remove-SameCalls : (h : Hub) (g c : String) → SameCalls h (remove_client_from_group h g c)
unfolding remove_client_from_group
remove-SameCalls h g c =
    let r = remove_from_order-SameCalls _ g (others c (order h g)) in
    record {
      waiters = r.waiters;
      completed = r.completed;
      channels = r.channels;
      pending_size = r.pending_size;
      default_max = r.default_max;
    }

ensure-SameCalls :
    (h : Hub) (g c : String) (p : ℕ) → SameCalls h (ensure_order (ensure_group h g c p) g c)
unfolding ensure_order ensure_group
ensure-SameCalls h g c p = ground arith

-- A change of the sessions and of the heap alone.
abbrev with_heap : Hub → List ClientSession → Hub
with_heap h heap = record h { heap = heap }

leave-SameCalls : (h : Hub) (old g c : String) → SameCalls h (leave_old_group h old g c)
unfolding leave_old_group
leave-SameCalls h old g c =
    by_if (SameCalls h) (old == g) (λ _. SameCalls-refl h) λ _. remove-SameCalls h old c

re_register-SameCalls :
    (h : Hub) (p : ℕ) (s : ClientSession) (c g : String) (user : ℤ) (platform : String)
    (max now : ℕ)
    → SameCalls h (re_register h p s c g user platform max now)
unfolding re_register
re_register-SameCalls h p s c g user platform max now =
    let moved = leave_old_group h s.group g c in
    let updated : ClientSession = record s {
      group = g;
      user_id = user;
      platform = platform;
      last_seen_at = now;
      max_in_flight = max;
    } in
    let stored = with_heap moved (set moved.heap p updated) in
    let m = leave-SameCalls h s.group g c in
    let e = ensure-SameCalls stored g c p in
    let f = signal-SameCalls (added stored g c p) p in
    record {
      waiters = f.waiters ∙ e.waiters ∙ m.waiters;
      completed = f.completed ∙ e.completed ∙ m.completed;
      channels = f.channels ∙ e.channels ∙ m.channels;
      pending_size = f.pending_size ∙ e.pending_size ∙ m.pending_size;
      default_max = f.default_max ∙ e.default_max ∙ m.default_max;
    }

new_session-SameCalls :
    (h : Hub) (c g : String) (user : ℤ) (platform : String) (max now : ℕ)
    → SameCalls h (new_session h c g user platform max now)
unfolding new_session ensure_order ensure_group
new_session-SameCalls h c g user platform max now = ground arith

-- Registrations leave the calls and the limits alone.
pub register-SameCalls :
    (h : Hub) (c g : String) (user : ℤ) (platform : String) (max : ℤ) (now : ℕ)
    → SameCalls h (register h c g user platform max now).0
unfolding register
register-SameCalls h c g user platform max now =
    let m = normalize_max_in_flight h max in
    elim (Option-cases (session h c)) [
      | inl n ↦ rw (n, register) (new_session-SameCalls h c g user platform m now)
      | inr ((p, s), n) ↦ rw (n, register) (re_register-SameCalls h p s c g user platform m now)
    ]

pub touch-SameCalls : (h : Hub) (c : String) (now : ℕ) → SameCalls h (touch h c now)
unfolding touch
touch-SameCalls h c now = elim (Option-cases (session h c)) [
  | inl n ↦ rw (n, touch) (SameCalls-refl h)
  | inr ((p, s), n) ↦ rw (n, touch) (ground arith)
]

pub unregister-SameCalls : (h : Hub) (c : String) → SameCalls h (unregister h c)
unfolding unregister
unregister-SameCalls h c = elim (Option-cases (session h c)) [
  | inl n ↦ rw (n, unregister) (SameCalls-refl h)
  | inr ((p, s), n) ↦
      let deleted = record h { sessions = delete c h.sessions } in
      let r = remove-SameCalls deleted s.group c in
      let f = signal-SameCalls (remove_client_from_group deleted s.group c) p in
      rw (n, unregister)
        (record {
          waiters = f.waiters ∙ r.waiters;
          completed = f.completed ∙ r.completed;
          channels = f.channels ∙ r.channels;
          pending_size = f.pending_size ∙ r.pending_size;
          default_max = f.default_max ∙ r.default_max;
        })
]
