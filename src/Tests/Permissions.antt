-- ===== src/Tests/Permissions.antt =====
-- A permission that is set already.
use qing_liao_chat_server.Base.{String, ◌≡◌, if◌then◌else◌, ◌∷◌, []}
use qing_liao_chat_server.Error.{ok}
use qing_liao_chat_server.Map.{contains, string_key}
use qing_liao_chat_server.Group.Permission.{
  PermissionType, Permission, modify_permission, get_permission_type,
}
use qing_liao_chat_server.Group.Permission.Laws.{get_permission_type-modify_permission}

get_permission_type-modify_permission_example :
    let j : String = "mute" in
    let name : String = "mute" in
    let type : PermissionType = PermissionType.administrator in
    let p : Permission = (record {
      permission_map = ("mute", PermissionType.operator) ∷ [];
      user_permission_map = [];
    }) in
    get_permission_type j (modify_permission name type p) ≡ (
      if contains name p.permission_map
      then get_permission_type j p
      else if string_key.beq name j
      then ok type
      else get_permission_type j p)
get_permission_type-modify_permission_example =
    get_permission_type-modify_permission "mute" "mute" (PermissionType.administrator)
      (record { permission_map = ("mute", PermissionType.operator) ∷ []; user_permission_map = [] })
