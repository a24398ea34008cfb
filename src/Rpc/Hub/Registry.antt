-- ===== src/Rpc/Hub/Registry.antt =====
-- internal/rpc/hub.go: the maps of the hub agree with one another after every registration.
use native.Mathlib.Decide.{ℕ_discrete}
use r0rpc.Prelude.{
  subst, eqb, ℕ, ◌≡◌, ap, ◌⊎◌, inl, inr, String, Option, none, some, ◌==◌, string_eq, get_elem?,
  set, if◌then◌else◌, arith, Option-cases, get_elem?-set_self, get_elem?-set_ne, get_elem?-lt,
}
use r0rpc.Prelude.Map.{lookup}
use r0rpc.Rpc.State.{Hub, ClientSession, session}
use r0rpc.Rpc.Hub.Lists.{Place, ListsHub, Lists-eq}

-- The group and the session of a client, as a lookup in the map of sessions gives them.
abbrev pub place_of : Option (ℕ × ClientSession) → Place
place_of none = none
place_of (some (p, s)) = some (s.group, p)

abbrev pub place : Hub → String → Place
place h c = place_of (session h c)

abbrev pub Points : Hub → Type 0
Points h =
    (c : String) (p : ℕ)
    → lookup c h.sessions ≡ some p
    → (s : ClientSession) × (get_elem? h.heap p ≡ some s) × (s.client_id ≡ c)

-- A client's pointer leads to a session of that client. The order of a group lists exactly the
-- clients registered in it, each once; its map holds those clients with their pointers; and its
-- cursor stands on one of them, or at the start.
pub record IsRegistry (h : Hub) : Type 0 where
  pub points : Points h
  pub lists : ListsHub (place h) h

pub session_cases :
    (h : Hub) (c : String)
    → Points h
    → ((lookup c h.sessions ≡ none) × (session h c ≡ none))
      ⊎ ((p : ℕ) × (s : ClientSession) × (lookup c h.sessions ≡ some p)
          × (get_elem? h.heap p ≡ some s)
          × (session h c ≡ some (p, s))
          × (s.client_id ≡ c))
session_cases h c v = elim (Option-cases (lookup c h.sessions)) [
  | inl e ↦ inl (e, ground arith)
  | inr (p, e) ↦ let (s, at, id) = v c p e in inr (p, s, e, at, ground arith, id)
]

-- Two clients never share a session.
pub pointer_injective :
    (h : Hub) (c d : String) (p : ℕ)
    → Points h
    → lookup c h.sessions ≡ some p
    → lookup d h.sessions ≡ some p
    → c ≡ d
pointer_injective h c d p v ec ed = let (s, at, id) = v c p ec in let (t, at', id') = v d p ed in cc

-- A write to the session of one client: its lookup sees the new value, all other lookups are as before.
pub session-set :
    (h h' : Hub) (c : String) (p : ℕ) (s s' : ClientSession) (d : String)
    → Points h
    → lookup c h.sessions ≡ some p
    → get_elem? h.heap p ≡ some s
    → h'.heap ≡ set h.heap p s'
    → h'.sessions ≡ h.sessions
    → session h' d ≡ (if c == d then some (p, s') else session h d)
session-set h h' c p s s' d v ec at eh es = elim (session_cases h d v) [
  | inl (e, n) ↦ ground (arith, ap (λ m. lookup d m) es, string_eq.same_iff c d)
  | inr (r, t, e, at', n, id) ↦ ground (
    arith,
    ap (λ m. lookup d m) es,
    ap (λ xs. get_elem? xs r) eh,
    string_eq.same_iff c d,
    get_elem?-set_self h.heap p s' (get_elem?-lt h.heap p at),
    get_elem?-set_ne h.heap p r s',
    pointer_injective h c d p v ec,
  )
]

-- Two hubs with the same maps of groups.
pub record SameGroups (h h' : Hub) : Type 0 where
  pub groups : h'.groups ≡ h.groups
  pub orders : h'.group_order ≡ h.group_order
  pub cursors : h'.group_cursor ≡ h.group_cursor

pub SameGroups-lists :
    {m : String → Place} (h h' : Hub) → SameGroups h h' → ListsHub m h → ListsHub m h'
SameGroups-lists h h' e l = record {
  listed = λ g c. rw e.orders (l.listed g c);
  distinct = λ g. rw e.orders (l.distinct g);
  grouped = λ g c. rw e.groups (l.grouped g c);
  cursors = λ g. rw (e.orders, e.cursors) (l.cursors g);
}

-- A write to one session that leaves its client and its group as they were, such as `Touch`, the
-- count of calls in flight, or a push to its queue.
pub record Writes (h h' : Hub) (p : ℕ) (s s' : ClientSession) : Type 0 where
  pub at : get_elem? h.heap p ≡ some s
  pub heap : h'.heap ≡ set h.heap p s'
  pub sessions : h'.sessions ≡ h.sessions
  pub client : s'.client_id ≡ s.client_id

pub get_elem?-Writes :
    (h h' : Hub) (p : ℕ) (s s' : ClientSession) (r : ℕ)
    → Writes h h' p s s'
    → get_elem? h'.heap r ≡ (if eqb p r then some s' else get_elem? h.heap r)
get_elem?-Writes h h' p s s' r w = ground (
  arith,
  ap (λ xs. get_elem? xs r) w.heap,
  get_elem?-set_self h.heap p s' (get_elem?-lt h.heap p w.at),
  get_elem?-set_ne h.heap p r s',
)

pub set-Points :
    (h h' : Hub) (p : ℕ) (s s' : ClientSession) → Writes h h' p s s' → Points h → Points h'
set-Points h h' p s s' w v c r e =
    let (t, at, id) = v c r (subst (λ m. lookup c m ≡ some r) w.sessions e) in
    let moved = get_elem?-Writes h h' p s s' r w in
    elim (ℕ_discrete p r) [
      | yes hit ↦ (s', ground arith, ground (arith, w.at, w.client))
      | no miss ↦ (t, ground arith, id)
    ]

Writes-place :
    (h h' : Hub) (p : ℕ) (s s' : ClientSession) (c : String)
    → Writes h h' p s s'
    → s'.group ≡ s.group
    → Points h
    → place h' c ≡ place h c
Writes-place h h' p s s' c w eg v = elim (session_cases h c v) [
  | inl (e, n) ↦ ground (arith, ap (λ m. lookup c m) w.sessions)
  | inr (r, t, e, at, n, id) ↦
      ground (arith, ap (λ m. lookup c m) w.sessions, get_elem?-Writes h h' p s s' r w, w.at)
]

pub Writes-IsRegistry :
    (h h' : Hub) (p : ℕ) (s s' : ClientSession)
    → Writes h h' p s s'
    → SameGroups h h'
    → s'.group ≡ s.group
    → IsRegistry h
    → IsRegistry h'
Writes-IsRegistry h h' p s s' w same eg v = record {
  points = set-Points h h' p s s' w v.points;
  lists =
      Lists-eq h' (λ c. Writes-place h h' p s s' c w eg v.points)
        (SameGroups-lists h h' same v.lists);
}
