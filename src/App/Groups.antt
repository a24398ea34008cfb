-- ===== src/App/Groups.antt =====
-- internal/app/app.go, `EnsureGroupActive`: only groups that were created and are enabled serve calls. What
-- the store knows of a name is an argument.
use r0rpc.Prelude.{String, Bool, true, false, Option, none, some, ◌==◌, string_eq, if◌then◌else◌}
use r0rpc.Prelude.Text.{trim_space}

-- What `GetGroupByName` returns: no row, another error, or a group that is enabled or not.
pub data GroupRow : Type 0 where
  no_rows : GroupRow
  store_error : String → GroupRow
  enabled : Bool → GroupRow

pub data GroupFailure : Type 0 where
  group_required : GroupFailure
  group_not_found : String → GroupFailure
  group_disabled : String → GroupFailure
  group_store_error : String → GroupFailure

abbrev pub checked_row : String → GroupRow → Option GroupFailure
checked_row name GroupRow.no_rows = some (GroupFailure.group_not_found name)
checked_row name (GroupRow.store_error e) = some (GroupFailure.group_store_error e)
checked_row name (GroupRow.enabled true) = none
checked_row name (GroupRow.enabled false) = some (GroupFailure.group_disabled name)

unfoldable pub ensure_group_active : (String → GroupRow) → String → Option GroupFailure
ensure_group_active get_group_by_name group_name =
    let name = trim_space group_name in
    if name == ""
    then some GroupFailure.group_required
    else checked_row name (get_group_by_name name)
