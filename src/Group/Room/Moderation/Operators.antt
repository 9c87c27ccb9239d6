-- ===== src/Group/Room/Moderation/Operators.antt =====
-- Who may turn a member into an operator and back, and what that changes
-- (server/room/groupRoom/groupRoom.cpp).
use qing_liao_chat_server.Base.{
  ℕ, String, ◌≡◌, ◌≢◌, ◌⊎◌, inl, inr, ap, ◌∙◌, refl, Bool, true, false, arith, ◌==◌, if◌then◌else◌,
}
use qing_liao_chat_server.Error.{Result, ok, err}
use qing_liao_chat_server.Map.{contains, id_key}
use qing_liao_chat_server.Room.{Sending, Names}
use qing_liao_chat_server.Group.Permission.{
  PermissionType, default, operator, administrator, Permission, get_user_permission_type,
  modify_user_permission,
}
use qing_liao_chat_server.Group.Permission.Laws.{get_user_permission_type-modify_user_permission}
use qing_liao_chat_server.Group.Room.{
  GroupRoom, has_user, is_muted, send_tip_message, store_message,
}
use qing_liao_chat_server.Group.Room.Moderation.{
  both_members, say, changing, retype, add_operator, remove_operator,
}

-- Two different members of a usable room, the executor its administrator, the user of the type
-- that the call starts from.
abbrev pub MayRetype : PermissionType → GroupRoom → ℕ → ℕ → Type 0
MayRetype from room executor_id user_id =
    (room.can_be_used ≡ true)
    × (executor_id ≢ user_id)
    × (contains executor_id room.user_id_map ≡ true)
    × (contains user_id room.user_id_map ≡ true)
    × (get_user_permission_type executor_id room.permission ≡ ok administrator)
    × (get_user_permission_type user_id room.permission ≡ ok from)

ok_true_cases : (r : Result Bool) → (r ≡ ok true) ⊎ (r ≢ ok true)
ok_true_cases (ok true) = inl refl
ok_true_cases (ok false) = inr (λ e. cc)
ok_true_cases (err f) = inr (λ e. cc)

lookup_type :
    (v user_id : ℕ) (type : PermissionType) (p : Permission)
    → get_user_permission_type v (modify_user_permission user_id type p)
      ≡ (if user_id == v then ok type else get_user_permission_type v p)
lookup_type v user_id type p = get_user_permission_type-modify_user_permission user_id v type p

module _ (names : Names) (now now' : ℕ) (executor_id user_id : ℕ) where
  -- The tip message is sent under a shared lock on the members, and touches no permission.
  say_returns :
      (verb : String) (s : Sending GroupRoom)
      → s.room.can_be_used ≡ true
      → let (r, t) = say names now now' executor_id user_id changing verb s in
        (r ≡ ok true)
        × (t.room.permission ≡ s.room.permission)
        × (t.room.user_id_map ≡ s.room.user_id_map)
        × (t.room.can_be_used ≡ s.room.can_be_used)
  unfolding say send_tip_message has_user is_muted store_message
  say_returns verb s u = ground arith

  retype_lem :
      (from to : PermissionType) (verb : String) (s : Sending GroupRoom)
      → ((retype names now now' executor_id user_id from to verb s).0 ≡ ok true
          → MayRetype from s.room executor_id user_id)
        × (MayRetype from s.room executor_id user_id
            → let (r, t) = retype names now now' executor_id user_id from to verb s in
              (r ≡ ok true)
              × (t.room.permission ≡ modify_user_permission user_id to s.room.permission)
              × (t.room.user_id_map ≡ s.room.user_id_map)
              × (t.room.can_be_used ≡ s.room.can_be_used))
        × ((retype names now now' executor_id user_id from to verb s).0 ≢ ok true
            → (retype names now now' executor_id user_id from to verb s).1 ≡ s)
  unfolding retype both_members has_user
  retype_lem from to verb s =
      let room = s.room in
      let said = say_returns verb (record s {
        room = record room { permission = modify_user_permission user_id to room.permission };
      }) in
      (ground (arith, said), ground (arith, said), ground (arith, said))

  -- `addOperator` ends in one of two ways. An administrator named another member of the default
  -- type: the call reports success, that member is an operator and nobody else's type changes. Or
  -- that is not so: the call does not report success and the room stays as it was.
  pub add_operator_lem :
      (v : ℕ) (s : Sending GroupRoom)
      → let (r, t) = add_operator names now now' executor_id user_id s in
        (MayRetype default s.room executor_id user_id
          × (r ≡ ok true)
          × (get_user_permission_type v t.room.permission ≡ (
              if user_id == v then ok operator else get_user_permission_type v s.room.permission)))
        ⊎ ((¬ MayRetype default s.room executor_id user_id) × (r ≢ ok true) × (t ≡ s))
  unfolding add_operator
  add_operator_lem v s =
      let (only, done, kept) = retype_lem default operator " was turned operator by " s in
      elim (ok_true_cases (add_operator names now now' executor_id user_id s).0) [
        | inl e ↦ inl (
          only e,
          e,
          ap (get_user_permission_type v) (done (only e)).1
              ∙ get_user_permission_type-modify_user_permission user_id v operator
                  s.room.permission,
        )
        | inr ne ↦ inr ((λ m. ne (done m).0), ne, kept ne)
      ]

  -- An administrator who takes back the operator's type that it gave restores every user's type.
  pub remove_operator-add_operator :
      (v : ℕ) (s : Sending GroupRoom)
      → MayRetype default s.room executor_id user_id
      → let t = (add_operator names now now' executor_id user_id s).1 in
        let (r, u) = remove_operator names now now' executor_id user_id t in
        (r ≡ ok true)
        × (get_user_permission_type v u.room.permission
            ≡ get_user_permission_type v s.room.permission)
  unfolding add_operator remove_operator
  remove_operator-add_operator v s m =
      let t = (add_operator names now now' executor_id user_id s).1 in
      let (_, typed, members, usable) =
        (retype_lem default operator " was turned operator by " s).1 m in
      let again : MayRetype operator t.room executor_id user_id = (
        usable ∙ m.0,
        m.1,
        ap (contains executor_id) members ∙ m.2,
        ap (contains user_id) members ∙ m.3,
        ap (get_user_permission_type executor_id) typed
            ∙ ground (arith, m, lookup_type executor_id user_id operator s.room.permission),
        ap (get_user_permission_type user_id) typed
            ∙ ground (arith, lookup_type user_id user_id operator s.room.permission),
      ) in
      let (r, back, _, _) =
        (retype_lem operator default " was turned default user by " t).1 again in
      (
        r,
        ap (get_user_permission_type v) back
            ∙ ground (
              arith,
              m,
              lookup_type v user_id default t.room.permission,
              ap (get_user_permission_type v) typed,
              lookup_type v user_id operator s.room.permission,
            ),
      )
