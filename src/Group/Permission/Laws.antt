-- ===== src/Group/Permission/Laws.antt =====
-- What the permission tables answer after each change
-- (server/room/groupRoom/groupPermission.cpp).
use qing_liao_chat_server.Base.{
  ℕ, String, ◌≡◌, refl, inl, inr, some, none, arith, ◌==◌, if◌then◌else◌, Option-cases,
}
use qing_liao_chat_server.Error.{ok, throw, no_permission}
use qing_liao_chat_server.Map.{lookup, contains, id_key, string_key, lookup-insert, lookup-erase}
use qing_liao_chat_server.Group.Permission.{
  PermissionType, Permission, geb, modify_permission, remove_permission, get_permission_type,
  modify_user_permission, user_has_permission, get_user_permission_type,
}

-- `modifyPermission` sets the type of a name that the table does not have; it leaves every name
-- that is there, the given one included, with the type that it had.
pub get_permission_type-modify_permission :
    (j name : String) (type : PermissionType) (p : Permission)
    → get_permission_type j (modify_permission name type p) ≡ (
        if contains name p.permission_map
        then get_permission_type j p
        else if string_key.beq name j
        then ok type
        else get_permission_type j p)
unfolding get_permission_type modify_permission
get_permission_type-modify_permission j name type p =
    ground (arith, lookup-insert j name type p.permission_map)

-- Who has a permission: a user's type counts from its last assignment on, by the order of the
-- types, and the assignment changes nothing for another user.
pub user_has_permission-modify_user_permission :
    (u v : ℕ) (name : String) (type : PermissionType) (p : Permission)
    → user_has_permission v name (modify_user_permission u type p) ≡ (
        if u == v
        then (elim (lookup name p.permission_map) [
          | none ↦ throw no_permission
          | some required ↦ ok (geb type required)
        ])
        else user_has_permission v name p)
unfolding user_has_permission modify_user_permission
user_has_permission-modify_user_permission u v name type p =
    ground (arith, lookup-insert v u type p.user_permission_map)

-- The type that a user has after an assignment.
pub get_user_permission_type-modify_user_permission :
    (u v : ℕ) (type : PermissionType) (p : Permission)
    → get_user_permission_type v (modify_user_permission u type p)
      ≡ (if u == v then ok type else get_user_permission_type v p)
unfolding get_user_permission_type modify_user_permission
get_user_permission_type-modify_user_permission u v type p =
    ground (arith, lookup-insert v u type p.user_permission_map)

-- Removal of a permission: its type is unknown afterwards and every other name keeps its type, or
-- the call throws `no_permission` and changes nothing.
pub remove_permission_lem :
    (j name : String) (p : Permission)
    → let (r, q) = remove_permission name p in
      if contains name p.permission_map
      then (r ≡ ok tt)
        × (get_permission_type j q
            ≡ (if string_key.beq name j then throw no_permission else get_permission_type j p))
      else (r ≡ throw no_permission) × (q ≡ p)
unfolding get_permission_type remove_permission
remove_permission_lem j name p = elim (Option-cases (lookup name p.permission_map)) [
  | inl e ↦ rw e (refl, refl)
  | inr (t, e) ↦ rw e (refl, ground (arith, lookup-erase j name p.permission_map))
]
