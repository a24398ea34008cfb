-- ===== src/Rpc/Dispatch/Fairness.antt =====
-- internal/rpc/hub.go, `pickSession`: it keeps the hub's maps in agreement, and takes turns.
use native.Mathlib.Nat.{mod-lt, mod-add-mod, add_assoc}
use r0rpc.Prelude.{
  ℕ, zero, suc, ◌+◌, ◌%◌, ◌<◌, ◌≡◌, refl, sym, ap, ◌∙◌, subst, inl, inr, String, true, false, some,
  List, [], ◌∷◌, ◌==◌, string_eq, length, get_elem?, member, arith, if◌then◌else◌, same_refl,
  Bool-cases, get_elem?-some,
}
use r0rpc.Prelude.Map.{insert, lookup-insert}
use r0rpc.Rpc.Job.{Result, ok}
use r0rpc.Rpc.State.{Hub, order, cursor}
use r0rpc.Rpc.Hub.Registry.{IsRegistry}
use r0rpc.Rpc.Dispatch.{Candidate, candidate, candidate_at, pick_session}
use r0rpc.Rpc.Dispatch.Rotation.{is_ready, place_at, member-get_elem?}
use r0rpc.Rpc.Dispatch.Choice.{Picks, start_of, pick_session-Picks}

cursor_moved : Hub → String → ℕ → Hub
cursor_moved h group n = record h { group_cursor = insert group n h.group_cursor }

cursor-moved :
    (h : Hub) (group : String) (n : ℕ) (k : String)
    → cursor (cursor_moved h group n) k ≡ (if group == k then n else cursor h k)
unfolding cursor_moved
cursor-moved h group n k = ground (arith, lookup-insert group n k h.group_cursor)

cursor_moved-IsRegistry :
    (h : Hub) (group : String) (n : ℕ)
    → n < length (order h group)
    → IsRegistry h
    → IsRegistry (cursor_moved h group n)
unfolding cursor_moved
cursor_moved-IsRegistry h group n lt v = record {
  points = v.points;
  lists = record {
    listed = v.lists.listed;
    distinct = v.lists.distinct;
    grouped = v.lists.grouped;
    cursors = λ g.
        ground (arith, cursor-moved h group n g, v.lists.cursors g, string_eq.same_iff group g);
  };
}

positive : (n : ℕ) (i : ℕ) → i < n → 0 < n
positive n i h = omega arith

named_keeps :
    (h : Hub) (group preferred : String)
    → (preferred == "") ≡ false
    → (pick_session h group preferred).0 ≡ h
unfolding pick_session
named_keeps h group preferred e = ground arith

-- `pickSession` keeps the maps of the hub in agreement, with or without a named client.
pub pick_session-IsRegistry :
    (h : Hub) (group preferred : String)
    → IsRegistry h
    → IsRegistry (pick_session h group preferred).0
pick_session-IsRegistry h group preferred v = elim (Bool-cases (preferred == "")) [
  | inl e ↦
      subst (λ t. IsRegistry (pick_session h group t).0)
        (sym ((string_eq.same_iff preferred "").0 e)) (from_picks (pick_session-Picks h group v))
  | inr e ↦ rw (named_keeps h group preferred e) v
]
  where
    from_picks : Picks h group (pick_session h group "") → IsRegistry (pick_session h group "").0
    from_picks (inl (e, r)) = rw r v
    from_picks (inr (inl (e, s, r))) = rw r v
    from_picks (inr (inr (i, p, hi, hit, before, r))) = rw r (
        unfold cursor_moved in
        cursor_moved-IsRegistry h group
          ((place_at h group (order h group) (cursor h group) i + 1) % length (order h group))
          (mod-lt _ (positive (length (order h group)) i hi)) v)

-- Successive picks for calls that name no client.
pub picks : ℕ → Hub → String → List (Result ℕ)
picks zero h group = []
picks (suc n) h group = let (h', r) = pick_session h group "" in r ∷ picks n h' group

-- Every client of the group has room in its queue.
abbrev pub AllReady : Hub → String → Type 0
AllReady h group =
    (c : String) → member c (order h group) ≡ true → is_ready (candidate h group c) ≡ true

AllReady-at :
    (h : Hub) (group : String) (k : ℕ)
    → 0 < length (order h group)
    → AllReady h group
    → is_ready (start_of h group k) ≡ true
unfolding candidate_at
AllReady-at h group k lt all =
    let i = place_at h group (order h group) (cursor h group) k in
    let (c, e) = get_elem?-some (order h group) i (mod-lt (cursor h group + k) lt) in
    rw e (all c (member-get_elem? (order h group) i c e))

first_pick :
    (h : Hub) (group : String)
    → IsRegistry h
    → 0 < length (order h group)
    → AllReady h group
    → (p : ℕ) × (start_of h group 0 ≡ Candidate.ready p)
      × (pick_session h group "" ≡ (
        cursor_moved h group
            ((place_at h group (order h group) (cursor h group) 0 + 1) % length (order h group)),
        ok p,
      ))
unfolding cursor_moved
first_pick h group v lt all = go (pick_session-Picks h group v)
  where
    go :
        Picks h group (pick_session h group "")
        → (p : ℕ) × (start_of h group 0 ≡ Candidate.ready p)
          × (pick_session h group "" ≡ (
            cursor_moved h group (
                (place_at h group (order h group) (cursor h group) 0 + 1) % length (order h group)),
            ok p,
          ))
    go (inl (e, r)) = absurd (omega (arith, ap length e))
    go (inr (inl (e, s, r))) =
        let (c, at) = get_elem?-some (order h group) 0 lt in
        let m = member-get_elem? (order h group) 0 c at in cc (s c m, all c m)
    go (inr (inr (zero, p, hi, hit, before, r))) = (p, hit, r)
    go (inr (inr (suc i, p, hi, hit, before, r))) =
        cc (before 0 (omega arith), AllReady-at h group 0 lt all)

next_place : (c m i : ℕ) → (((c + 0) % m + 1) % m + i) % m ≡ (c + suc i) % m
next_place c m i =
    mod-add-mod ((c + 0) % m + 1) m i
    ∙ ap (λ (t : ℕ). t % m) (add_assoc ((c + 0) % m) 1 i)
    ∙ mod-add-mod (c + 0) m (1 + i)
    ∙ ap (λ (t : ℕ). t % m) (omega arith)

next_start :
    (h : Hub) (group : String) (i : ℕ)
    → start_of
        (cursor_moved h group
          ((place_at h group (order h group) (cursor h group) 0 + 1) % length (order h group)))
        group
        i
      ≡ start_of h group (suc i)
unfolding candidate_at candidate cursor_moved
next_start h group i =
    let m = length (order h group) in
    let n = (place_at h group (order h group) (cursor h group) 0 + 1) % m in
    let moved : cursor (cursor_moved h group n) group ≡ n =
      cursor-moved h group n group ∙ rw (same_refl group) refl in
    ap (λ (t : ℕ). candidate_at h group (get_elem? (order h group) t))
      (ap (λ (t : ℕ). (t + i) % m) moved ∙ next_place (cursor h group) m i)

moved-AllReady :
    (h : Hub) (group : String) (n : ℕ) → AllReady h group → AllReady (cursor_moved h group n) group
unfolding candidate cursor_moved
moved-AllReady h group n all = all

order-moved :
    (h : Hub) (group : String) (n : ℕ) → order (cursor_moved h group n) group ≡ order h group
unfolding cursor_moved
order-moved h group n = refl

-- While every client of a group has room, successive picks go round the group's order: the pick
-- number `i` is of the client that stands `i` places behind the cursor, so that as many picks as there
-- are clients serve each of them once.
pub picks_go_round :
    (n i : ℕ) (h : Hub) (group : String)
    → IsRegistry h
    → 0 < length (order h group)
    → AllReady h group
    → i < n
    → (p : ℕ) × (start_of h group i ≡ Candidate.ready p)
      × (get_elem? (picks n h group) i ≡ some (ok p))
unfolding picks
picks_go_round zero i h group v lt all hi = elim hi [ ]
picks_go_round (suc n) zero h group v lt all hi =
    let (p, hit, r) = first_pick h group v lt all in (p, hit, ap (λ t. some t.1) r)
picks_go_round (suc n) (suc i) h group v lt all hi =
    let (p, hit, r) = first_pick h group v lt all in
    let next = (place_at h group (order h group) (cursor h group) 0 + 1) % length (order h group) in
    let (q, there, e) =
      picks_go_round n i (cursor_moved h group next) group
        (cursor_moved-IsRegistry h group next (mod-lt _ lt) v) (rw (order-moved h group next) lt)
        (moved-AllReady h group next all) (omega arith) in
    (q, sym (next_start h group i) ∙ there, rw r e)
