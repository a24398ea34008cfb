-- ===== src/Prelude/Map.antt =====
-- Go's maps, as association lists. Every law of `lookup` is an equation with a test on the keys,
-- so that proofs about maps need nothing of the representation.
use mathlib.Core.Path.{◌≡◌, refl}
use mathlib.Core.Bool.{Bool, true, false}
use mathlib.Core.Option.{Option, none, some}
use mathlib.Core.List.{List, [], ◌∷◌}
use mathlib.Core.List
use native.Mathlib.Omega.{arith}
use r0rpc.Prelude.Tests.{Comparable, ◌==◌, if◌then◌else◌}

pub record Map {ℓ κ} (K : Type ℓ) (V : Type κ) : Type (ℓ ⊔ κ) where
  pub entries : List (K × V)

module _ {ℓ κ} {K : Type ℓ} {V : Type κ} where
  unfoldable pub empty : Map K V
  empty = record { entries = [] }

  -- `len(m) == 0`
  unfoldable pub is_empty : Map K V → Bool
  is_empty m = elim m.entries [ [] ↦ true | _ ∷ _ ↦ false ]

  -- The values in some order, as a `range` loop meets them.
  unfoldable pub values : Map K V → List V
  values m = List.map (λ e. e.1) m.entries

-- A value that passes the test, or nothing.
abbrev pub passing {κ} : {V : Type κ} → (V → Bool) → Option V → Option V
passing p none = none
passing p (some v) = if p v then some v else none

-- The value of a function, if there is an argument.
abbrev pub mapped {κ} : {V : Type κ} → (V → V) → Option V → Option V
mapped f none = none
mapped f (some v) = some (f v)

module _ {ℓ κ} {K : Type ℓ} {V : Type κ} ⦃e : Comparable K⦄ where
  unfoldable pub find : K → List (K × V) → Option V
  find k [] = none
  find k ((j, v) ∷ l) = if j == k then some v else find k l

  unfoldable pub without : K → List (K × V) → List (K × V)
  without k [] = []
  without k ((j, v) ∷ l) = let rest = without k l in if j == k then rest else (j, v) ∷ rest

  -- A `range` loop that deletes the entries whose value fails the test.
  unfoldable pub keep : (V → Bool) → List (K × V) → List (K × V)
  unfolding without
  keep p [] = []
  keep p ((j, v) ∷ l) = let rest = keep p l in if p v then (j, v) ∷ rest else without j rest

  unfoldable pub lookup : K → Map K V → Option V
  unfolding find
  lookup k m = find k m.entries

  unfoldable pub delete : K → Map K V → Map K V
  unfolding without
  delete k m = record { entries = without k m.entries }

  unfoldable pub insert : K → V → Map K V → Map K V
  unfolding without
  insert k v m = record { entries = (k, v) ∷ without k m.entries }

  unfoldable pub retain : (V → Bool) → Map K V → Map K V
  unfolding keep
  retain p m = record { entries = keep p m.entries }

  -- A statement that changes every row.
  unfoldable pub changed : (V → V) → List (K × V) → List (K × V)
  changed f [] = []
  changed f ((j, v) ∷ l) = (j, f v) ∷ changed f l

  unfoldable pub adjust : (V → V) → Map K V → Map K V
  unfolding changed
  adjust f m = record { entries = changed f m.entries }

  pub find-without :
      (k j : K) (l : List (K × V)) → find j (without k l) ≡ (if k == j then none else find j l)
  unfolding find without
  find-without k j [] = ground arith
  find-without k j ((i, v) ∷ l) =
      ground (arith, find-without k j l, e.same_iff i k, e.same_iff i j, e.same_iff k j)

  find-keep : (p : V → Bool) (j : K) (l : List (K × V)) → find j (keep p l) ≡ passing p (find j l)
  unfolding find keep
  find-keep p j [] = refl
  find-keep p j ((i, v) ∷ l) = ground (arith, find-keep p j l, find-without i j (keep p l))

  find-changed : (f : V → V) (j : K) (l : List (K × V)) → find j (changed f l) ≡ mapped f (find j l)
  unfolding find changed
  find-changed f j [] = refl
  find-changed f j ((i, v) ∷ l) = ground (arith, find-changed f j l)

  pub lookup-adjust :
      (f : V → V) (j : K) (m : Map K V) → lookup j (adjust f m) ≡ mapped f (lookup j m)
  unfolding lookup adjust
  lookup-adjust f j m = find-changed f j m.entries

  pub lookup-empty : (k : K) → lookup k (empty {V = V}) ≡ none
  unfolding lookup empty
  lookup-empty k = refl

  pub lookup-delete :
      (k j : K) (m : Map K V) → lookup j (delete k m) ≡ (if k == j then none else lookup j m)
  unfolding lookup delete
  lookup-delete k j m = find-without k j m.entries

  pub lookup-insert :
      (k : K) (v : V) (j : K) (m : Map K V)
      → lookup j (insert k v m) ≡ (if k == j then some v else lookup j m)
  unfolding lookup insert
  lookup-insert k v j m = ground (arith, find-without k j m.entries)

  pub lookup-retain :
      (p : V → Bool) (j : K) (m : Map K V) → lookup j (retain p m) ≡ passing p (lookup j m)
  unfolding lookup retain
  lookup-retain p j m = find-keep p j m.entries

  pub is_empty-lookup : (m : Map K V) (j : K) → is_empty m ≡ true → lookup j m ≡ none
  unfolding is_empty lookup
  is_empty-lookup m j h = ground arith

pub ruleset map_laws = (lookup-empty, lookup-delete, lookup-insert, lookup-retain)
