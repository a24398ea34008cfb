-- ===== src/Rpc/Hub/Entering.antt =====
-- internal/rpc/hub.go, `Register`: a client leaves a group, enters one, and gets a session.
use r0rpc.Prelude.{
  ℕ, ◌≡◌, refl, ◌∙◌, ◌⊎◌, inl, inr, String, none, some, [], ◌∷◌, ◌++◌, ◌==◌, string_eq, length,
  get_elem?, if◌then◌else◌, arith, Bool-cases, same_refl, get_elem?-lt, get_elem?-append_left,
  get_elem?-append_last,
}
use r0rpc.Prelude.Map.{lookup, insert, lookup-insert}
use r0rpc.Rpc.State.{Hub, ClientSession, session}
use r0rpc.Rpc.Hub.{leave_old_group}
use r0rpc.Rpc.Hub.Groups.{heap-remove, sessions-remove}
use r0rpc.Rpc.Hub.Lists.{Place, ListsHub, Lists-eq, Lists-remove, Lists-add, replaced, added}
use r0rpc.Rpc.Hub.Registry.{place, Points, IsRegistry, session_cases}

module _ (h : Hub) (old g c : String) (p : ℕ) where
  pub heap-leave : (leave_old_group h old g c).heap ≡ h.heap
  unfolding leave_old_group
  heap-leave = ground (arith, heap-remove h old c)

  pub sessions-leave : (leave_old_group h old g c).sessions ≡ h.sessions
  unfolding leave_old_group
  sessions-leave = ground (arith, sessions-remove h old c)

  -- After leaving the old group the client is in no group, or still in the one that it enters.
  pub leave-Lists :
      place h c ≡ some (old, p)
      → ListsHub (place h) h
      → (m : String → Place) × ((m c ≡ none) ⊎ (m c ≡ some (g, p)))
        × ((x : Place) (d : String) → replaced c x m d ≡ replaced c x (place h) d)
        × ListsHub m (leave_old_group h old g c)
  unfolding leave_old_group
  leave-Lists e l = elim (Bool-cases (old == g)) [
    | inl same ↦
        rw (same, leave_old_group)
          (place h, inr (ground (arith, string_eq.same_iff old g)), λ x d. refl, l)
    | inr moved ↦
        rw (moved, leave_old_group)
          (
            replaced c none (place h),
            inl (rw (same_refl c) refl),
            λ x d. ground arith,
            Lists-remove (place h) h old c p e l,
          )
  ]

-- Entering a group after the session of the client has been written.
pub enter-IsRegistry :
    (h k : Hub) (g c : String) (p : ℕ) (s : ClientSession) (m : String → Place)
    → Points (added k g c p)
    → ((d : String) → session (added k g c p) d ≡ (if c == d then some (p, s) else session h d))
    → s.group ≡ g
    → (m c ≡ none) ⊎ (m c ≡ some (g, p))
    → ((x : Place) (d : String) → replaced c x m d ≡ replaced c x (place h) d)
    → ListsHub m k
    → IsRegistry (added k g c p)
enter-IsRegistry h k g c p s m points sess eg free same l = record {
  points = points;
  lists =
      Lists-eq (added k g c p) (λ d. ground (arith, sess d, same (some (g, p)) d))
        (Lists-add m k g c p free l);
}

-- A session that is allocated behind the others, for a client that has none.
module _ (h k : Hub) (c : String) (s : ClientSession) (eh : k.heap ≡ h.heap ++ s ∷ [])
    (es : k.sessions ≡ insert c (length h.heap) h.sessions) (v : Points h) where
  lookup-allocated :
      (d : String)
      → lookup d k.sessions ≡ (if c == d then some (length h.heap) else lookup d h.sessions)
  lookup-allocated d = rw es (lookup-insert c (length h.heap) d h.sessions)

  get_elem?-allocated : get_elem? k.heap (length h.heap) ≡ some s
  get_elem?-allocated = rw eh (get_elem?-append_last h.heap s)

  get_elem?-kept :
      (r : ℕ) (t : ClientSession) → get_elem? h.heap r ≡ some t → get_elem? k.heap r ≡ some t
  get_elem?-kept r t e =
      rw eh (get_elem?-append_left h.heap (s ∷ []) r (get_elem?-lt h.heap r e) ∙ e)

  pub session-allocated :
      (d : String) → session k d ≡ (if c == d then some (length h.heap, s) else session h d)
  session-allocated d = elim (session_cases h d v) [
    | inl (e, n) ↦ ground (arith, lookup-allocated d, get_elem?-allocated)
    | inr (r, t, e, at, n, id) ↦
        ground (arith, lookup-allocated d, get_elem?-allocated, get_elem?-kept r t at)
  ]

  pub allocated-Points : s.client_id ≡ c → Points k
  allocated-Points id d r e = elim (Bool-cases (c == d)) [
    | inl hit ↦ (
      s,
      ground (arith, lookup-allocated d, get_elem?-allocated),
      ground (arith, string_eq.same_iff c d),
    )
    | inr miss ↦
        let (t, at, id') = v d r (ground (arith, lookup-allocated d)) in
        (t, get_elem?-kept r t at, id')
  ]
