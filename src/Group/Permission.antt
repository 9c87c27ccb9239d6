-- ===== src/Group/Permission.antt =====
-- server/room/groupRoom/groupPermission.h and groupPermission.cpp.
pub mod Laws
use qing_liao_chat_server.Base.{
  ℕ, String, Bool, true, false, none, some, [], is_some, if◌then◌else◌, leb,
}
use qing_liao_chat_server.Error.{
  Action, Result, ok, err, throw, no_permission, user_not_existed, ◌>>=◌, ◌>>◌, or_raise, modify,
  gets,
}
use qing_liao_chat_server.Map.{Map, lookup, contains, insert, emplace, erase, id_key, string_key}

pub data PermissionType : Type 0 where
  default operator administrator : PermissionType

-- The underlying value, by which two types are compared.
abbrev pub value : PermissionType → ℕ
value default = 0
value operator = 1
value administrator = 2

abbrev pub geb : PermissionType → PermissionType → Bool
geb a b = leb (value b) (value a)

pub record Permission : Type 0 where
  pub permission_map : Map String PermissionType
  pub user_permission_map : Map ℕ PermissionType

abbrev pub no_permissions : Permission
no_permissions = record { permission_map = []; user_permission_map = [] }

-- `modifyPermission` calls `emplace`.
pub modify_permission : String → PermissionType → Permission → Permission
modify_permission name type p = record p { permission_map = emplace name type p.permission_map }

pub remove_permission : String → Action Permission (Unit {0})
remove_permission name = do
  or_raise (← gets (λ p. lookup name p.permission_map)) no_permission
  modify (λ p. record p { permission_map = erase name p.permission_map })

pub get_permission_type : String → Permission → Result PermissionType
get_permission_type name p = elim (lookup name p.permission_map) [
  | none ↦ throw no_permission
  | some type ↦ ok type
]

-- `modifyUserPermission` assigns through `operator[]`.
unfoldable pub modify_user_permission : ℕ → PermissionType → Permission → Permission
modify_user_permission user_id type p = record p {
  user_permission_map = insert user_id type p.user_permission_map;
}

pub remove_user : ℕ → Action Permission (Unit {0})
remove_user user_id = do
  or_raise (← gets (λ p. lookup user_id p.user_permission_map)) user_not_existed
  modify (λ p. record p { user_permission_map = erase user_id p.user_permission_map })

pub user_has_permission : ℕ → String → Permission → Result Bool
user_has_permission user_id name p = elim (lookup user_id p.user_permission_map) [
  | none ↦ throw user_not_existed
  | some type ↦ elim (lookup name p.permission_map) [
    | none ↦ throw no_permission
    | some required ↦ ok (geb type required)
  ]
]

unfoldable pub get_user_permission_type : ℕ → Permission → Result PermissionType
get_user_permission_type user_id p = elim (lookup user_id p.user_permission_map) [
  | none ↦ throw user_not_existed
  | some type ↦ ok type
]
