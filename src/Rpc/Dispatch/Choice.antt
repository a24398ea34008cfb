-- ===== src/Rpc/Dispatch/Choice.antt =====
-- internal/rpc/hub.go, `pickSession`: which session it picks, and what it changes.
use native.Mathlib.Nat.{zero-add, mod-lt}
use r0rpc.Prelude.{
  ℕ, ◌+◌, ◌%◌, ◌<◌, ◌≡◌, ◌≢◌, refl, sym, ap, ◌∙◌, subst, ◌⊎◌, inl, inr, String, true, false, List,
  [], ◌∷◌, string_eq, leb, length, get_elem?, member, arith, get_elem?-some, if◌then◌else◌,
}
use r0rpc.Prelude.Map.{insert}
use r0rpc.Rpc.Job.{Result, ok, err, no_online_client, group_saturated}
use r0rpc.Rpc.State.{Hub, order, cursor}
use r0rpc.Rpc.Hub.Registry.{IsRegistry, session_cases}
use r0rpc.Rpc.Dispatch.{Candidate, candidate, candidate_at, pick_loop, pick_from, pick_session}
use r0rpc.Rpc.Dispatch.Rotation.{
  is_ready, place_at, found_at, seen_after, pick_loop-cases, seen_first, member-get_elem?,
  member_index, offset_of,
}

-- Of a hub whose maps agree, a client in the order of a group is ready or saturated.
listed_online :
    (h : Hub) (group c : String)
    → IsRegistry h
    → member c (order h group) ≡ true
    → candidate h group c ≢ Candidate.offline
unfolding candidate
listed_online h group c v m e = elim (session_cases h c v.points) [
  | inl (_, n) ↦ ground (arith, v.lists.listed group c)
  | inr (p, s, _, at, n, id) ↦ ground (arith, v.lists.listed group c)
]

abbrev pub start_of : Hub → String → ℕ → Candidate
start_of h group = found_at h group (order h group) (cursor h group)

found_online :
    (h : Hub) (group : String) (k : ℕ)
    → IsRegistry h
    → 0 < length (order h group)
    → start_of h group k ≢ Candidate.offline
unfolding candidate_at
found_online h group k v lt e =
    let i = place_at h group (order h group) (cursor h group) k in
    let (c, at) = get_elem?-some (order h group) i (mod-lt (cursor h group + k) lt) in
    listed_online h group c v (member-get_elem? (order h group) i c at) (ground arith)

-- What `pickSession` does for a call that names no client.
abbrev pub Picks : Hub → String → Hub × Result ℕ → Type 0
Picks h group r =
    ((order h group ≡ []) × (r ≡ (h, err no_online_client)))
    ⊎ ((order h group ≢ [])
        × ((c : String)
            → member c (order h group) ≡ true
            → candidate h group c ≡ Candidate.saturated)
        × (r ≡ (h, err group_saturated)))
    ⊎ ((i : ℕ) × (p : ℕ) × (i < length (order h group))
        × (start_of h group i ≡ Candidate.ready p)
        × ((j : ℕ) → j < i → start_of h group j ≡ Candidate.saturated)
        × (r ≡ (
          record h {
            group_cursor =
                insert group
                  ((place_at h group (order h group) (cursor h group) i + 1)
                    % length (order h group))
                  h.group_cursor;
          },
          ok p,
        )))

saturated_of :
    (c : Candidate) → c ≢ Candidate.offline → is_ready c ≡ false → c ≡ Candidate.saturated
saturated_of Candidate.offline h e = absurd (h refl)
saturated_of Candidate.saturated h e = refl
saturated_of (Candidate.ready p) h e = cc

pub in_range :
    (h : Hub) (group : String)
    → IsRegistry h
    → 0 < length (order h group)
    → cursor h group < length (order h group)
in_range h group v lt = ground (arith, v.lists.cursors group)

start_at_cursor :
    (h : Hub) (group : String)
    → IsRegistry h
    → 0 < length (order h group)
    → (if leb (length (order h group)) (cursor h group) then 0 else cursor h group) ≡ cursor h group
start_at_cursor h group v lt = ground (arith, in_range h group v lt)

-- Where no offset shows a ready client, every client of the order is saturated.
all_saturated :
    (h : Hub) (group : String)
    → IsRegistry h
    → 0 < length (order h group)
    → ((j : ℕ) → j < length (order h group) → is_ready (start_of h group j) ≡ false)
    → (c : String) → member c (order h group) ≡ true
    → candidate h group c ≡ Candidate.saturated
unfolding candidate_at
all_saturated h group v lt missed c m =
    let (i, hi, at) = member_index (order h group) c m in
    let (k, hk, e) =
      offset_of (length (order h group)) (cursor h group) i (in_range h group v lt) hi in
    let found : start_of h group k ≡ candidate h group c =
      ap (λ t. candidate_at h group (get_elem? (order h group) t)) e
      ∙ ap (candidate_at h group) at in
    saturated_of _ (listed_online h group c v m) (ap is_ready (sym found) ∙ missed k hk)

loop-Picks :
    (h : Hub) (group : String)
    → IsRegistry h
    → 0 < length (order h group)
    → Picks h group
        (pick_loop h group (order h group) (cursor h group) (length (order h group)) 0 false)
loop-Picks h group v lt =
    elim (pick_loop-cases h group (order h group) (cursor h group) (length (order h group)) 0
      false) [
        | inl (i, p, hi, hit, before, r) ↦ inr (
            inr (
              i,
              p,
              hi,
              rw (zero-add i) at hit,
              λ j hj.
                  saturated_of _ (found_online h group j v lt) (rw (zero-add j) at (before j hj)),
              rw (zero-add i) at r,
            ))
        | inr (missed, r) ↦ inr (
            inl (
              λ e. absurd (omega (arith, ap length e)),
              all_saturated h group v lt (not_ready missed),
              r ∙ rw (seen missed) refl,
            ))
      ]
  where
    seen :
        ((j : ℕ) → j < length (order h group) → is_ready (start_of h group (0 + j)) ≡ false)
        → seen_after h group (order h group) (cursor h group) (length (order h group)) 0 false
          ≡ true
    seen f =
        seen_first h group (order h group) (cursor h group) (length (order h group)) lt
          (saturated_of _ (found_online h group 0 v lt) (f 0 lt))

    not_ready :
        ((j : ℕ) → j < length (order h group) → is_ready (start_of h group (0 + j)) ≡ false)
        → (j : ℕ) → j < length (order h group)
        → is_ready (start_of h group j) ≡ false
    not_ready f j hj = rw (zero-add j) at (f j hj)

pick_from-Picks :
    (h : Hub) (group : String) (clients : List String)
    → IsRegistry h
    → order h group ≡ clients
    → Picks h group (pick_from h group clients)
unfolding pick_from
pick_from-Picks h group [] v e = inl (e, refl)
pick_from-Picks h group (c ∷ cs) v e =
    let lt : 0 < length (order h group) = omega (arith, ap length e) in
    subst
      (λ clients. Picks h group (
        pick_loop h group clients
          (if leb (length clients) (cursor h group) then 0 else cursor h group) (length clients) 0
          false))
      e (rw (start_at_cursor h group v lt) (loop-Picks h group v lt))

pub pick_session-Picks :
    (h : Hub) (group : String) → IsRegistry h → Picks h group (pick_session h group "")
unfolding pick_session
pick_session-Picks h group v = pick_from-Picks h group (order h group) v refl
