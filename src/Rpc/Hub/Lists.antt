-- ===== src/Rpc/Hub/Lists.antt =====
-- internal/rpc/hub.go: the order, the cursor and the client set of each group against a table that
-- says of each client in which group it is, and which session is its own.
use r0rpc.Prelude.{
  ℕ, ◌<◌, ◌≡◌, ◌⊎◌, String, Bool, false, ◌&&◌, Option, none, some, List, [], ◌∷◌, ◌++◌, ◌==◌,
  string_eq, length, member, IsDistinct, if◌then◌else◌, arith, length-append,
}
use r0rpc.Prelude.Map.{lookup}
use r0rpc.Rpc.State.{Hub, order, cursor, group_sessions}
use r0rpc.Rpc.Hub.{ensure_group, ensure_order, remove_client_from_group}
use r0rpc.Rpc.Hub.Groups.{
  member-append, member-others, IsDistinct-append, IsDistinct-others, order-ensure_order,
  order-remove, cursor-remove, groups-ensure_order, heap-ensure_order, sessions-ensure_order,
  group_sessions-ensure_group, group_sessions-remove,
}

-- A client's group and its session.
abbrev pub Place : Type 0
Place = Option (String × ℕ)

abbrev pub is_in : String → Place → Bool
is_in g none = false
is_in g (some (k, p)) = k == g

abbrev pub pointer_in : String → Place → Option ℕ
pointer_in g none = none
pointer_in g (some (k, p)) = if k == g then some p else none

abbrev pub replaced : String → Place → (String → Place) → String → Place
replaced c x m d = if c == d then x else m d

-- The maps of the groups describe the table `m`.
pub record Lists (m : String → Place) (names : String → List String) (start : String → ℕ)
    (owned : String → String → Option ℕ) : Type 0 where
  pub listed : (g c : String) → member c (names g) ≡ is_in g (m c)
  pub distinct : (g : String) → IsDistinct (names g)
  pub grouped : (g c : String) → owned g c ≡ pointer_in g (m c)
  pub cursors : (g : String) → (start g ≡ 0) ⊎ (start g < length (names g))

abbrev pub owned_by : Hub → String → String → Option ℕ
owned_by h g c = lookup c (group_sessions h g)

abbrev pub ListsHub : (String → Place) → Hub → Type 0
ListsHub m h = Lists m (order h) (cursor h) (owned_by h)

pub Lists-eq :
    {m m' : String → Place} (h : Hub) → ((c : String) → m' c ≡ m c) → ListsHub m h → ListsHub m' h
Lists-eq h same l = record {
  listed = λ g c. rw (same c) (l.listed g c);
  distinct = l.distinct;
  grouped = λ g c. rw (same c) (l.grouped g c);
  cursors = l.cursors;
}

-- `ensureGroup` and `ensureOrder`, as `Register` calls them.
abbrev pub added : Hub → String → String → ℕ → Hub
added h g c p = ensure_order (ensure_group h g c p) g c

module _ (h : Hub) (g c : String) (p : ℕ) where
  pub heap-added : (added h g c p).heap ≡ h.heap
  unfolding ensure_group
  heap-added = heap-ensure_order (ensure_group h g c p) g c

  pub sessions-added : (added h g c p).sessions ≡ h.sessions
  unfolding ensure_group
  sessions-added = sessions-ensure_order (ensure_group h g c p) g c

module _ (m : String → Place) (h : Hub) (g c : String) (p : ℕ) where
  pub Lists-remove :
      m c ≡ some (g, p)
      → ListsHub m h
      → ListsHub (replaced c none m) (remove_client_from_group h g c)
  Lists-remove e l = record {
    listed = λ k d. ground (
      arith,
      order-remove h g c k,
      member-others d c (order h g),
      l.listed k d,
      l.listed g d,
      string_eq.same_iff g k,
      string_eq.same_iff c d,
    );
    distinct = λ k.
        ground (
          arith,
          order-remove h g c k,
          IsDistinct-others c (order h g) (l.distinct g),
          l.distinct k,
        );
    grouped = λ k d. ground (
      arith,
      group_sessions-remove h g c k d,
      l.grouped k d,
      string_eq.same_iff g k,
      string_eq.same_iff c d,
    );
    cursors = λ k. ground (arith, order-remove h g c k, cursor-remove h g c k, l.cursors k);
  }

  order-added :
      (k : String)
      → order (added h g c p) k ≡ (
          if g == k
          then (if member c (order h g) then order h g else order h g ++ c ∷ [])
          else order h k)
  order-added k = unfold ensure_group in order-ensure_order (ensure_group h g c p) g c k

  cursor-added : (k : String) → cursor (added h g c p) k ≡ cursor h k
  unfolding ensure_order ensure_group
  cursor-added k = ground arith

  owned-added :
      (k d : String)
      → owned_by (added h g c p) k d ≡ (if (g == k) && (c == d) then some p else owned_by h k d)
  owned-added k d = rw groups-ensure_order (group_sessions-ensure_group h g c p k d)

  pub Lists-add :
      (m c ≡ none) ⊎ (m c ≡ some (g, p))
      → ListsHub m h
      → ListsHub (replaced c (some (g, p)) m) (added h g c p)
  Lists-add e l = record {
    listed = λ k d. ground (
      arith,
      order-added k,
      member-append d c (order h g),
      l.listed k d,
      l.listed g d,
      l.listed g c,
      string_eq.same_iff g k,
      string_eq.same_iff c d,
    );
    distinct = λ k.
        ground (arith, order-added k, IsDistinct-append c (order h g), l.distinct k, l.distinct g);
    grouped = λ k d.
        ground
          (arith, owned-added k d, l.grouped k d, string_eq.same_iff g k, string_eq.same_iff c d);
    cursors = λ k. ground (
      arith,
      order-added k,
      cursor-added k,
      l.cursors k,
      length-append (order h g) (c ∷ []),
      string_eq.same_iff g k,
    );
  }
