-- ===== src/Server/Groups/Leaving.antt =====
-- Leaving a group and closing it (server/user/user.cpp `leaveGroup`, `removeGroup`).
use qing_liao_chat_server.Base.{
  ℕ, ◌≡◌, refl, true, false, arith, ◌==◌, ◌&&◌, not, is_some, All, inl, inr, Bool-cases, ==_iff, ap,
  ◌∙◌, List, [], ◌∷◌,
}
use qing_liao_chat_server.Error.{ok}
use qing_liao_chat_server.Map.{
  Map, lookup, contains, insert, erase, id_key, lookup-insert, lookup-erase, keys,
}
use qing_liao_chat_server.User.{User}
use qing_liao_chat_server.Room.{Notice, group_removed, leave_room}
use qing_liao_chat_server.Group.Room.{GroupRoom, remove_member, get_user_list}
use qing_liao_chat_server.Server.{Server, on_group, send_json_to_user, notify, notify_all}
use qing_liao_chat_server.Server.Manager.{has_group_room, remove_group_room}
use qing_liao_chat_server.Server.Friends.Requests.{notify_lem}
use qing_liao_chat_server.Server.Groups.{leave_group, remove_group, administers, send_json_to_users}
use qing_liao_chat_server.Server.Groups.Requests.{IsRoom, administrator_of-usable, on_group-reads}

-- The room without a member.
abbrev pub without_member : ℕ → GroupRoom → GroupRoom
without_member a room = record room {
  user_id_map = erase a room.user_id_map;
  members = leave_room a room.members;
}

-- The administrator cannot leave a group: the call returns false. But it has taken the administrator
-- out of the members by then, who stays the administrator of the room.
pub leave_group-administrator :
    (g : ℕ) (room : GroupRoom) (s : Server)
    → IsRoom g room s
    → let d = room.administrator_user_id in
      let (r, t) = leave_group d g s in
      (r ≡ ok false)
      × IsRoom g (without_member d room) t
      × (contains d (without_member d room).user_id_map ≡ false)
unfolding leave_group remove_member on_group notify_all has_group_room
leave_group-administrator g room s (there, usable) =
    let d = room.administrator_user_id in
    let room' = without_member d room in
    let t : Server = record s { group_rooms = insert g room' s.group_rooms } in
    let found = lookup-insert g g room' s.group_rooms in
    let admin = administrator_of-usable g room' t (ground (arith, found), usable) in
    (
      ground (arith, there, usable, admin),
      (ground (arith, there, usable, admin, found), usable),
      ground (arith, lookup-erase d d room.user_id_map),
    )

send_json_to_user-known :
    (id : ℕ) (notice : Notice) (s : Server)
    → is_some (lookup id s.users) ≡ true
    → send_json_to_user id notice s ≡ (ok tt, notify (id, notice) s)
unfolding send_json_to_user
send_json_to_user-known id notice s known = ground (arith, known)

send_json_to_users-known :
    (ids : List ℕ) (notice : Notice) (users : Map ℕ User) (s : Server)
    → s.users ≡ users
    → All (λ id. is_some (lookup id users) ≡ true) ids
    → ((send_json_to_users ids notice s).0 ≡ ok tt)
      × ((send_json_to_users ids notice s).1.group_rooms ≡ s.group_rooms)
unfolding send_json_to_users
send_json_to_users-known [] notice users s e known = (refl, refl)
send_json_to_users-known (id ∷ ids) notice users s e (first, known) =
    let frame = notify_lem (id, notice) s in
    let sent_first =
      send_json_to_user-known id notice s (ap (λ m. is_some (lookup id m)) e ∙ first) in
    let rest =
      send_json_to_users-known ids notice users (notify (id, notice) s) (ground (arith, frame, e))
        known in
    (ground (arith, sent_first, rest), ground (arith, sent_first, rest, frame))

-- The administrator closes a group whose members are all known users: the call returns true, and
-- the group is gone. For anybody else it returns false and changes nothing.
pub remove_group_lem :
    (g e v : ℕ) (room : GroupRoom) (s : Server)
    → IsRoom g room s
    → is_some (lookup room.administrator_user_id s.users) ≡ true
    → All (λ id. is_some (lookup id s.users) ≡ true) (keys room.user_id_map)
    → let (r, t) = remove_group e g s in
      let granted = e == room.administrator_user_id in
      (r ≡ ok granted) × (has_group_room v t ≡ (not (granted && g == v) && has_group_room v s))
unfolding remove_group administers remove_group_room has_group_room get_user_list
remove_group_lem g e v room s (there, usable) known all_known =
    elim (Bool-cases (e == room.administrator_user_id)) [
      | inr other ↦
          let admin = administrator_of-usable g room s (there, usable) in
          (ground (arith, there, other, admin), ground (arith, there, other, admin))
      | inl is_admin ↦
          let admin = administrator_of-usable g room s (there, usable) in
          let members =
            on_group-reads g (λ _. get_user_list) (ok (keys room.user_id_map)) room s there
              (ground (arith, usable)) in
          let known_e : is_some (lookup e s.users) ≡ true =
            ap (λ x. is_some (lookup x s.users)) ((==_iff e room.administrator_user_id).0 is_admin)
            ∙ known in
          let told = notify (e, group_removed g) s in
          let frame = notify_lem (e, group_removed g) s in
          let told_all =
            send_json_to_users-known (keys room.user_id_map) (group_removed g) s.users told
              (ground (arith, frame)) all_known in
          let self = send_json_to_user-known e (group_removed g) s known_e in
          (
            ground (arith, there, is_admin, admin, members, self, told_all, frame),
            ground (
              arith,
              there,
              is_admin,
              admin,
              members,
              self,
              told_all,
              frame,
              lookup-erase v g s.group_rooms,
            ),
          )
    ]
