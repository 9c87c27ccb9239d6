-- ===== src/Group/Room/Members.antt =====
-- A group room keeps its members twice, in its own table and in that of its TCPRoom, and its
-- history in order (server/room/groupRoom/groupRoom.cpp): the calls on members and messages.
use qing_liao_chat_server.Base.{ℕ, String, ◌≡◌, ◌==◌, false, [], arith, Option-cases, inl, inr}
use qing_liao_chat_server.Error.{ok}
use qing_liao_chat_server.Map.{contains, id_key, lookup-insert, lookup-erase, lookup-empty}
use qing_liao_chat_server.Messages.{
  History, MessageStructure, normal_message, tip_message, insert_message, free_time,
}
use qing_liao_chat_server.Messages.Laws.{IsOrdered, insert_message-Above}
use qing_liao_chat_server.Room.{Sending, Names, has_user}
use qing_liao_chat_server.Room.Members.{has_user-empty, has_user-join_room, has_user-leave_room}
use qing_liao_chat_server.Group.Level.{min_level}
use qing_liao_chat_server.Group.Room.{
  nobody, GroupRoom, UserDataStructure, Room, Held, new_group_room, add_member, remove_member,
  is_muted, store_message, send_message, send_tip_message, send_user_tip_message,
}
use qing_liao_chat_server.Group.Room

-- A user is in both tables of the room or in neither; the history is in order; there is an
-- administrator, whose place 0 would leave open.
pub record IsValidAt (v : ℕ) (room : GroupRoom) : Type 0 where
  pub agrees : contains v room.user_id_map ≡ has_user v room.members
  pub ordered : IsOrdered room.message_map
  pub named : room.administrator_user_id == 0 ≡ false

store-IsOrdered :
    (now : ℕ) (m : MessageStructure) (h : History)
    → IsOrdered h
    → IsOrdered (insert_message (free_time now h) m h)
store-IsOrdered now m h o = insert_message-Above (free_time now h) 0 m h (omega arith) o

pub new_group_room-IsValidAt :
    (names : Names) (group_id creator v : ℕ) (room : GroupRoom)
    → new_group_room names group_id creator ≡ ok room
    → creator == 0 ≡ false
    → IsValidAt v room
unfolding new_group_room
new_group_room-IsValidAt names group_id creator v room e named =
    elim (Option-cases (names creator)) [
      | inl unknown ↦ absurd (ground (arith, unknown, e))
      | inr (name, known) ↦ record {
        agrees = ground (
          arith,
          known,
          e,
          lookup-insert {V = UserDataStructure} v creator
              (record { nickname = name; level = min_level }) [],
          lookup-empty {V = UserDataStructure} v,
          has_user-join_room names creator v [],
          has_user-empty v,
        );
        ordered = ground (arith, known, e);
        named = ground (arith, known, e, named);
      }
    ]

pub add_member-IsValidAt :
    (names : Names) (u v : ℕ) (s : Sending GroupRoom)
    → ((w : ℕ) → IsValidAt w s.room)
    → IsValidAt v (add_member names u s).1.room
unfolding add_member
add_member-IsValidAt names u v s h = elim (Option-cases (names u)) [
  | inl e ↦ record {
    agrees =
        ground (arith, (h u).agrees, (h v).agrees, has_user-join_room names u v s.room.members);
    ordered = ground (arith, (h v).ordered);
    named = ground (arith, (h v).named);
  }
  | inr (name, e) ↦ record {
    agrees = ground (
      arith,
      (h u).agrees,
      (h v).agrees,
      has_user-join_room names u v s.room.members,
      lookup-insert v u (record { nickname = name; level = min_level }) s.room.user_id_map,
    );
    ordered = ground (arith, (h v).ordered);
    named = ground (arith, (h v).named);
  }
]

pub remove_member-IsValidAt :
    (u v : ℕ) (s : Sending GroupRoom) → IsValidAt v s.room → IsValidAt v (remove_member u s).1.room
unfolding remove_member
remove_member-IsValidAt u v s h = record {
  agrees = ground (
    arith,
    h.agrees,
    has_user-leave_room u v s.room.members,
    lookup-erase v u s.room.user_id_map,
  );
  ordered = ground (arith, h.ordered);
  named = ground (arith, h.named);
}

-- What a message call leaves alone, and the order of the history.
pub send_message-IsValidAt :
    (names : Names) (now now' u v : ℕ) (text : String) (s : Sending GroupRoom)
    → IsValidAt v s.room
    → IsValidAt v (send_message names now now' u text s).1.room
unfolding send_message Room.has_user is_muted store_message
send_message-IsValidAt names now now' u v text s h = record {
  agrees = ground (arith, h.agrees);
  ordered = ground (
    arith,
    h.ordered,
    store-IsOrdered now'
        (record { sender = u; message = text; type = normal_message; receiver = nobody })
        s.room.message_map,
  );
  named = ground (arith, h.named);
}

pub send_tip_message-IsValidAt :
    (names : Names) (held : Held) (now now' u v : ℕ) (text : String) (s : Sending GroupRoom)
    → IsValidAt v s.room
    → IsValidAt v (send_tip_message names held now now' u text s).1.room
unfolding send_tip_message Room.has_user is_muted store_message
send_tip_message-IsValidAt names held now now' u v text s h = record {
  agrees = ground (arith, h.agrees);
  ordered = ground (
    arith,
    h.ordered,
    store-IsOrdered now'
        (record { sender = u; message = text; type = tip_message; receiver = nobody })
        s.room.message_map,
  );
  named = ground (arith, h.named);
}

pub send_user_tip_message-IsValidAt :
    (names : Names) (now now' u w v : ℕ) (text : String) (s : Sending GroupRoom)
    → IsValidAt v s.room
    → IsValidAt v (send_user_tip_message names now now' u text w s).1.room
unfolding send_user_tip_message Room.has_user is_muted store_message
send_user_tip_message-IsValidAt names now now' u w v text s h = record {
  agrees = ground (arith, h.agrees);
  ordered = ground (
    arith,
    h.ordered,
    store-IsOrdered now' (record { sender = u; message = text; type = tip_message; receiver = w })
        s.room.message_map,
  );
  named = ground (arith, h.named);
}
