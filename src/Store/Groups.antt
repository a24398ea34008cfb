-- ===== src/Store/Groups.antt =====
-- internal/store/store.go and internal/web/http.go: the groups, and the handlers that create and change them.
-- A statement that changes nothing reports no row, as the driver does by default. The collation's sort key
-- is an argument.
pub mod History
use Prim.Native.Char.{code}
use r0rpc.Prelude.{
  ℕ, ◌+◌, String, Bool, true, false, ◌||◌, Option, none, some, ◌==◌, string_eq, eqb, ltb, ◌⊎◌, inl,
  inr, get_or, if◌then◌else◌,
}
use r0rpc.Prelude.Map.{Map, lookup, insert}
use r0rpc.Prelude.Text.{trim_space}
use r0rpc.App.Groups.{GroupRow}

pub record Group : Type 0 where
  pub name : String
  pub enabled : Bool
  pub notes : String

pub data GroupError : Type 0 where
  name_required name_too_long name_not_allowed group_exists no_rows : GroupError

-- `len(name)`: the bytes of the text.
unfoldable pub byte_length : String → ℕ
byte_length String.[] = 0
byte_length (String.◌∷◌ c s) =
    let rest = byte_length s in
    rest
    + (if ltb (code c) 0x80
        then 1
        else if ltb (code c) 0x800
        then 2
        else if ltb (code c) 0x10000
        then 3
        else 4)

-- Whether there is a slash, a backslash, a question mark or a hash.
unfoldable pub has_reserved : String → Bool
has_reserved String.[] = false
has_reserved (String.◌∷◌ c s) =
    let rest = has_reserved s in
    eqb (code c) 47 || eqb (code c) 92 || eqb (code c) 63 || eqb (code c) 35 || rest

unfoldable pub normalize_group_name : String → GroupError ⊎ String
unfolding byte_length has_reserved
normalize_group_name name =
    let n = trim_space name in
    if n == ""
    then inl GroupError.name_required
    else if ltb 128 (byte_length n)
    then inl GroupError.name_too_long
    else if has_reserved n
    then inl GroupError.name_not_allowed
    else inr n

abbrev pub found_group : Option Group → GroupError ⊎ Group
found_group none = inl GroupError.no_rows
found_group (some g) = inr g

unfoldable pub get_group_by_name :
    (String → String) → Map String Group → String → GroupError ⊎ Group
get_group_by_name key m name =
    let n = trim_space name in
    if n == "" then inl GroupError.no_rows else found_group (lookup (key n) m)

-- The insertion, by the row that there is with the name.
abbrev pub insert_group :
    (String → String)
    → Map String Group
    → Group
    → Option Group
    → Map String Group × (GroupError ⊎ Group)
insert_group key m g (some old) = (m, inl GroupError.group_exists)
insert_group key m g none =
    let m' = insert (key g.name) g m in (m', get_group_by_name key m' g.name)

abbrev pub create_named :
    (String → String)
    → Map String Group
    → Bool
    → String
    → GroupError ⊎ String
    → Map String Group × (GroupError ⊎ Group)
create_named key m enabled notes (inl e) = (m, inl e)
create_named key m enabled notes (inr n) =
    insert_group key m (record { name = n; enabled = enabled; notes = trim_space notes })
      (lookup (key n) m)

unfoldable pub create_group :
    (String → String)
    → Map String Group
    → String
    → Bool
    → String
    → Map String Group × (GroupError ⊎ Group)
unfolding normalize_group_name get_group_by_name
create_group key m name enabled notes = create_named key m enabled notes (normalize_group_name name)

abbrev pub same_bool : Bool → Bool → Bool
same_bool true b = b
same_bool false true = false
same_bool false false = true

-- The update of the row that there is, and its error.
abbrev pub set_enabled :
    String → Map String Group → Bool → Option Group → Map String Group × Option GroupError
set_enabled k m enabled none = (m, some GroupError.no_rows)
set_enabled k m enabled (some g) = (
  insert k (record g { enabled = enabled }) m,
  if same_bool g.enabled enabled then some GroupError.no_rows else none,
)

unfoldable pub update_group_status :
    (String → String) → Map String Group → String → Bool → Map String Group × Option GroupError
update_group_status key m name enabled =
    let n = trim_space name in
    if n == ""
    then (m, some GroupError.no_rows)
    else set_enabled (key n) m enabled (lookup (key n) m)

pub record CreateGroupBody : Type 0 where
  pub name : String
  pub group : String
  pub enabled : Option Bool
  pub notes : String

pub data GroupReply : Type 0 where
  created : Group → GroupReply
  changed bad_request : GroupReply
  refused : GroupError → GroupReply
  not_found : String → GroupReply

abbrev pub reply_created : GroupError ⊎ Group → GroupReply
reply_created (inl e) = GroupReply.refused e
reply_created (inr g) = GroupReply.created g

-- The name that a body asks for.
abbrev pub name_of : CreateGroupBody → String
name_of b = let n = trim_space b.name in if n == "" then trim_space b.group else n

unfoldable pub handle_create_group :
    (String → String) → Map String Group → Option CreateGroupBody → Map String Group × GroupReply
unfolding create_group
handle_create_group key m none = (m, GroupReply.bad_request)
handle_create_group key m (some b) =
    let (m', r) = create_group key m (name_of b) (get_or b.enabled true) b.notes in
    (m', reply_created r)

abbrev pub reply_changed : String → Option GroupError → GroupReply
reply_changed name none = GroupReply.changed
reply_changed name (some e) = GroupReply.not_found name

-- The only error of the update here is that there is no row.
unfoldable pub handle_patch_group_status :
    (String → String) → Map String Group → String → Option Bool → Map String Group × GroupReply
unfolding update_group_status
handle_patch_group_status key m path none = (m, GroupReply.bad_request)
handle_patch_group_status key m path (some enabled) =
    let name = trim_space path in
    let (m', e) = update_group_status key m name enabled in (m', reply_changed name e)

-- What `EnsureGroupActive` sees of a group.
abbrev pub row_of_group : GroupError ⊎ Group → GroupRow
row_of_group (inl e) = GroupRow.no_rows
row_of_group (inr g) = GroupRow.enabled g.enabled
