-- ===== src/Rpc/Hub/Groups.antt =====
-- internal/rpc/hub.go: what `ensureGroup`, `ensureOrder` and `removeClientFromGroup` do to the order,
-- the cursor and the set of clients of each group.
use r0rpc.Prelude.{
  ℕ, ◌≡◌, refl, inl, inr, by_if, Option-cases, String, true, false, not, ◌&&◌, Comparable, none,
  some, get_or, List, [], ◌∷◌, ◌++◌, ◌==◌, string_eq, leb, length, select, member, IsDistinct,
  if◌then◌else◌, arith,
}
use r0rpc.Prelude.Map
use r0rpc.Prelude.Map.{
  Map, lookup, insert, delete, lookup-insert, lookup-delete, lookup-empty, is_empty-lookup,
  map_laws,
}
use r0rpc.Rpc.State.{Hub, order, cursor, group_sessions}
use r0rpc.Rpc.Hub.{
  ensure_group, ensure_order, remove_from_groups, remove_from_order, remove_client_from_group,
}

module _ {A : Type 0} ⦃e : Comparable A⦄ where
  -- The list without an item.
  abbrev pub others : A → List A → List A
  others a xs = select (λ x. not (x == a)) xs

  pub member-append :
      (a b : A) (xs : List A) → member a (xs ++ b ∷ []) ≡ (if b == a then true else member a xs)
  member-append a b [] = ground arith
  member-append a b (x ∷ xs) = ground (arith, member-append a b xs)

  pub member-others :
      (a b : A) (xs : List A) → member a (others b xs) ≡ (if b == a then false else member a xs)
  member-others a b [] = ground arith
  member-others a b (x ∷ xs) =
      ground (arith, member-others a b xs, e.same_iff x a, e.same_iff x b, e.same_iff b a)

  pub IsDistinct-append :
      (a : A) (xs : List A) → member a xs ≡ false → IsDistinct xs → IsDistinct (xs ++ a ∷ [])
  IsDistinct-append a [] h d = (refl, tt)
  IsDistinct-append a (x ∷ xs) h d = (
    ground (arith, member-append x a xs, e.same_iff x a, e.same_iff a x),
    IsDistinct-append a xs (ground arith) d.1,
  )

  pub IsDistinct-others : (a : A) (xs : List A) → IsDistinct xs → IsDistinct (others a xs)
  IsDistinct-others a [] d = tt
  IsDistinct-others a (x ∷ xs) d = ground (arith, IsDistinct-others a xs d.1, member-others x a xs)

module _ (h : Hub) (g c : String) where
  pub order-ensure_order :
      (k : String)
      → order (ensure_order h g c) k ≡ (
          if g == k
          then (if member c (order h g) then order h g else order h g ++ c ∷ [])
          else order h k)
  unfolding ensure_order
  order-ensure_order k =
      ground (arith, lookup-insert g (order h g ++ c ∷ []) k h.group_order, string_eq.same_iff g k)

  pub groups-ensure_order : (ensure_order h g c).groups ≡ h.groups
  unfolding ensure_order
  groups-ensure_order = ground arith

  pub heap-ensure_order : (ensure_order h g c).heap ≡ h.heap
  unfolding ensure_order
  heap-ensure_order = ground arith

  pub sessions-ensure_order : (ensure_order h g c).sessions ≡ h.sessions
  unfolding ensure_order
  sessions-ensure_order = ground arith

  order-remove_from_order :
      (xs : List String) (k : String)
      → order (remove_from_order h g xs) k ≡ (if g == k then xs else order h k)
  unfolding remove_from_order
  order-remove_from_order [] k = ground (arith, lookup-delete g k h.group_order)
  order-remove_from_order (x ∷ xs) k = ground (arith, lookup-insert g (x ∷ xs) k h.group_order)

  cursor-remove_from_order :
      (xs : List String) (k : String)
      → cursor (remove_from_order h g xs) k
        ≡ (if g == k then (if leb (length xs) (cursor h g) then 0 else cursor h g) else cursor h k)
  unfolding remove_from_order
  cursor-remove_from_order [] k = ground (arith, lookup-delete g k h.group_cursor)
  cursor-remove_from_order (x ∷ xs) k =
      ground (arith, lookup-insert g 0 k h.group_cursor, string_eq.same_iff g k)

  pub group_sessions-ensure_group :
      (p : ℕ) (k d : String)
      → lookup d (group_sessions (ensure_group h g c p) k)
        ≡ (if (g == k) && (c == d) then some p else lookup d (group_sessions h k))
  unfolding ensure_group
  group_sessions-ensure_group p k d = ground (
    arith,
    lookup-insert g (insert c p (group_sessions h g)) k h.groups,
    lookup-insert c p d (group_sessions h g),
    string_eq.same_iff g k,
  )

module _ (h : Hub) (g c : String) where
  -- The named client leaves the group's order, and no other order changes.
  pub order-remove :
      (k : String)
      → order (remove_client_from_group h g c) k
        ≡ (if g == k then others c (order h g) else order h k)
  unfolding remove_client_from_group
  order-remove k = order-remove_from_order _ g c (others c (order h g)) k

  pub cursor-remove :
      (k : String)
      → cursor (remove_client_from_group h g c) k ≡ (
          if g == k
          then (if leb (length (others c (order h g))) (cursor h g) then 0 else cursor h g)
          else cursor h k)
  unfolding remove_client_from_group
  cursor-remove k = cursor-remove_from_order _ g c (others c (order h g)) k

lookup-remove_from_groups :
    (m : Map String (Map String ℕ)) (g c k d : String)
    → lookup d (get_or (lookup k (remove_from_groups g c m)) Map.empty)
      ≡ (if (g == k) && (c == d) then none else lookup d (get_or (lookup k m) Map.empty))
unfolding remove_from_groups
lookup-remove_from_groups m g c k d = elim (Option-cases (lookup g m)) [
  | inl e ↦
      rw (e, remove_from_groups) (ground (arith, lookup-empty {V = ℕ} d, string_eq.same_iff g k))
  | inr (gs, e) ↦
      rw (e, remove_from_groups)
        (by_if
          (λ (r : Map String (Map String ℕ)).
            lookup d (get_or (lookup k r) Map.empty)
            ≡ (if (g == k) && (c == d) then none else lookup d (get_or (lookup k m) Map.empty)))
          (Map.is_empty (delete c gs))
          (λ b. ground (
            arith,
            is_empty-lookup (delete c gs) d,
            lookup-delete c d gs,
            lookup-delete g k m,
            lookup-empty {V = ℕ} d,
            string_eq.same_iff g k,
          ))
          λ b. ground (
            arith,
            lookup-delete c d gs,
            lookup-insert g (delete c gs) k m,
            string_eq.same_iff g k,
          ))
]

module _ (h : Hub) (g : String) where
  groups-remove_from_order : (xs : List String) → (remove_from_order h g xs).groups ≡ h.groups
  unfolding remove_from_order
  groups-remove_from_order [] = refl
  groups-remove_from_order (x ∷ xs) = refl

  heap-remove_from_order : (xs : List String) → (remove_from_order h g xs).heap ≡ h.heap
  unfolding remove_from_order
  heap-remove_from_order [] = refl
  heap-remove_from_order (x ∷ xs) = refl

  sessions-remove_from_order : (xs : List String) → (remove_from_order h g xs).sessions ≡ h.sessions
  unfolding remove_from_order
  sessions-remove_from_order [] = refl
  sessions-remove_from_order (x ∷ xs) = refl

module _ (h : Hub) (g c : String) where
  pub group_sessions-remove :
      (k d : String)
      → lookup d (group_sessions (remove_client_from_group h g c) k)
        ≡ (if (g == k) && (c == d) then none else lookup d (group_sessions h k))
  unfolding remove_client_from_group
  group_sessions-remove k d =
      rw groups-remove_from_order (lookup-remove_from_groups h.groups g c k d)

  pub heap-remove : (remove_client_from_group h g c).heap ≡ h.heap
  unfolding remove_client_from_group
  heap-remove = heap-remove_from_order _ g (others c (order h g))

  pub sessions-remove : (remove_client_from_group h g c).sessions ≡ h.sessions
  unfolding remove_client_from_group
  sessions-remove = sessions-remove_from_order _ g (others c (order h g))
