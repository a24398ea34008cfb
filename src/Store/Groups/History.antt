-- ===== src/Store/Groups/History.antt =====
-- internal/store/store.go and internal/web/http.go: the state of a group by what was asked for its name.
use r0rpc.Prelude.{
  String, Bool, true, Option, none, some, List, [], ◌∷◌, ◌≡◌, refl, sym, ap, ◌∙◌, ◌==◌, string_eq,
  ◌⊎◌, inl, inr, get_or, if◌then◌else◌, arith, Bool-cases, Option-cases,
}
use r0rpc.Prelude.Map
use r0rpc.Prelude.Map.{Map, lookup, insert, lookup-insert, lookup-empty}
use r0rpc.Prelude.Text.{trim_space}
use r0rpc.Prelude.Text.Trimmed.{trim_space-trim_space}
use r0rpc.App.Groups.{GroupRow, GroupFailure, checked_row, ensure_group_active}
use r0rpc.Store.Groups.{
  Group, GroupError, normalize_group_name, get_group_by_name, insert_group, create_named,
  create_group, same_bool, set_enabled, update_group_status, CreateGroupBody, GroupReply, name_of,
  handle_create_group, handle_patch_group_status, row_of_group,
}

-- The requests of administrators, in any order.
pub data GroupOp : Type 0 where
  creates : Option CreateGroupBody → GroupOp
  patches : String → Option Bool → GroupOp

unfoldable pub apply_group_op : (String → String) → Map String Group → GroupOp → Map String Group
apply_group_op key m (creates body) = (handle_create_group key m body).0
apply_group_op key m (patches path body) = (handle_patch_group_status key m path body).0

unfoldable pub run_group_ops :
    (String → String) → Map String Group → List GroupOp → Map String Group
unfolding apply_group_op
run_group_ops key m [] = m
run_group_ops key m (op ∷ ops) = run_group_ops key (apply_group_op key m op) ops

-- A group that does not exist, or whether it is enabled.
abbrev pub Standing : Type 0
Standing = Option Bool

module _ (key : String → String) where
  -- What a request does to the group with a key.
  abbrev pub creates_at : String → Bool → GroupError ⊎ String → Standing → Standing
  creates_at k enabled name (some b) = some b
  creates_at k enabled (inl e) none = none
  creates_at k enabled (inr n) none = if key n == k then some enabled else none

  abbrev pub patches_at : String → String → Bool → Standing → Standing
  patches_at k name enabled none = none
  patches_at k name enabled (some b) =
      if name == "" then some b else if key name == k then some enabled else some b

  abbrev pub standing_after : String → GroupOp → Standing → Standing
  standing_after k (creates none) s = s
  standing_after k (creates (some b)) s =
      creates_at k (get_or b.enabled true) (normalize_group_name (name_of b)) s
  standing_after k (patches path none) s = s
  standing_after k (patches path (some enabled)) s = patches_at k (trim_space path) enabled s

  abbrev pub history : String → Standing → List GroupOp → Standing
  history k s [] = s
  history k s (op ∷ ops) = history k (standing_after k op s) ops

  abbrev standing_of : Option Group → Standing
  standing_of none = none
  standing_of (some g) = some g.enabled

  abbrev at : String → Map String Group → Standing
  at k m = standing_of (lookup k m)

  at-insert :
      (j : String) (g : Group) (k : String) (m : Map String Group)
      → at k (insert j g m) ≡ (if j == k then some g.enabled else at k m)
  at-insert j g k m = elim (Bool-cases (j == k)) [
    | inl e ↦ rw (lookup-insert j g k m, e) refl
    | inr e ↦ rw (lookup-insert j g k m, e) refl
  ]

  -- Keys that are the same have the same group.
  at_same : (j k : String) (m : Map String Group) → (j == k) ≡ true → at k m ≡ at j m
  at_same j k m e = ap (λ x. at x m) (sym ((string_eq.same_iff j k).0 e))

  insert_group-at :
      (m : Map String Group) (g : Group) (o : Option Group) (k : String)
      → at (key g.name) m ≡ standing_of o
      → at k (insert_group key m g o).0 ≡ creates_at k g.enabled (inr g.name) (at k m)
  insert_group-at m g none k is =
      ground (arith, at_same (key g.name) k m, at-insert (key g.name) g k m)
  insert_group-at m g (some old) k is = ground (arith, at_same (key g.name) k m)

  set_enabled-at :
      (m : Map String Group) (j : String) (enabled : Bool) (o : Option Group) (k : String)
      → at j m ≡ standing_of o
      → at k (set_enabled j m enabled o).0
        ≡ elim (at k m) [ none ↦ none | some b ↦ if j == k then some enabled else some b ]
  set_enabled-at m j enabled none k is = ground (arith, at_same j k m)
  set_enabled-at m j enabled (some g) k is =
      ground (arith, at_same j k m, at-insert j (record g { enabled = enabled }) k m)

  create_named-at :
      (m : Map String Group) (enabled : Bool) (notes : String) (n : GroupError ⊎ String)
      (k : String)
      → at k (create_named key m enabled notes n).0 ≡ creates_at k enabled n (at k m)
  create_named-at m enabled notes (inl e) k = ground arith
  create_named-at m enabled notes (inr n) k =
      insert_group-at m (record { name = n; enabled = enabled; notes = trim_space notes })
        (lookup (key n) m) k refl

  update-at :
      (m : Map String Group) (path : String) (enabled : Bool) (k : String)
      → at k (update_group_status key m (trim_space path) enabled).0
        ≡ patches_at k (trim_space path) enabled (at k m)
  unfolding update_group_status
  update-at m path enabled k =
      rw (trim_space-trim_space path) (elim (Bool-cases (trim_space path == "")) [
        | inl e ↦ rw e (ground arith)
        | inr e ↦ rw e (
            ground (
              arith,
              set_enabled-at m (key (trim_space path)) enabled (lookup (key (trim_space path)) m) k
                  refl,
            ))
      ])

  apply-at :
      (m : Map String Group) (op : GroupOp) (k : String)
      → at k (apply_group_op key m op) ≡ standing_after k op (at k m)
  unfolding apply_group_op handle_create_group handle_patch_group_status create_group
  apply-at m (creates none) k = refl
  apply-at m (creates (some b)) k =
      create_named-at m (get_or b.enabled true) b.notes (normalize_group_name (name_of b)) k
  apply-at m (patches path none) k = refl
  apply-at m (patches path (some enabled)) k = update-at m path enabled k

  run-at :
      (m : Map String Group) (ops : List GroupOp) (k : String)
      → at k (run_group_ops key m ops) ≡ history k (at k m) ops
  unfolding run_group_ops
  run-at m [] k = refl
  run-at m (op ∷ ops) k =
      run-at (apply_group_op key m op) ops k ∙ ap (λ s. history k s ops) (apply-at m op k)

  -- What `EnsureGroupActive` makes of a trimmed name.
  abbrev pub verdict : String → Standing → Option GroupFailure
  verdict name s =
      if name == ""
      then some GroupFailure.group_required
      else checked_row name
          (elim s [ none ↦ GroupRow.no_rows | some enabled ↦ GroupRow.enabled enabled ])

  -- How a change of the status of a trimmed name is answered.
  abbrev pub answer : String → Bool → Standing → GroupReply
  answer name enabled none = GroupReply.not_found name
  answer name enabled (some b) =
      if name == ""
      then GroupReply.not_found name
      else if same_bool b enabled
      then GroupReply.not_found name
      else GroupReply.changed

  -- A table that shows the standing of a group by its name.
  pub record Shows (m : Map String Group) (name : String) (s : Standing) : Type 0 where
    pub active :
        ensure_group_active (λ n. row_of_group (get_group_by_name key m n)) name
        ≡ verdict (trim_space name) s
    pub answered :
        (enabled : Bool)
        → (handle_patch_group_status key m name (some enabled)).1
          ≡ answer (trim_space name) enabled s

  verdict-at :
      (m : Map String Group) (name : String)
      → ensure_group_active (λ n. row_of_group (get_group_by_name key m n)) name
        ≡ verdict (trim_space name) (at (key (trim_space name)) m)
  unfolding ensure_group_active get_group_by_name
  verdict-at m name = elim (Bool-cases (trim_space name == "")) [
    | inl e ↦ ground (arith, trim_space-trim_space name)
    | inr e ↦ elim (Option-cases (lookup (key (trim_space name)) m)) [
      | inl f ↦ ground (arith, trim_space-trim_space name)
      | inr (g, f) ↦ ground (arith, trim_space-trim_space name)
    ]
  ]

  answer-at :
      (m : Map String Group) (name : String) (enabled : Bool)
      → (handle_patch_group_status key m name (some enabled)).1
        ≡ answer (trim_space name) enabled (at (key (trim_space name)) m)
  unfolding handle_patch_group_status update_group_status
  answer-at m name enabled =
      rw (trim_space-trim_space name) (elim (Bool-cases (trim_space name == "")) [
        | inl e ↦ elim (Option-cases (lookup (key (trim_space name)) m)) [
          | inl f ↦ ground arith
          | inr (g, f) ↦ ground arith
        ]
        | inr e ↦ elim (Option-cases (lookup (key (trim_space name)) m)) [
          | inl f ↦ ground arith
          | inr (g, f) ↦ ground arith
        ]
      ])

  pub run_group_ops-Shows :
      (ops : List GroupOp) (name : String)
      → Shows (run_group_ops key Map.empty ops) name (history (key (trim_space name)) none ops)
  run_group_ops-Shows ops name =
      let k = key (trim_space name) in
      let m = run_group_ops key Map.empty ops in
      let is : at k m ≡ history k none ops =
        run-at Map.empty ops k ∙ ap (λ o. history k (standing_of o) ops) (lookup-empty k) in
      record {
        active = verdict-at m name ∙ ap (verdict (trim_space name)) is;
        answered = λ enabled. answer-at m name enabled ∙ ap (answer (trim_space name) enabled) is;
      }
