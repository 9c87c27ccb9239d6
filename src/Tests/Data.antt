-- ===== src/Tests/Data.antt =====
-- Small servers, users, rooms and byte strings for the examples.
use Prim.Native.String.{◌++◌ as append}
use qing_liao_chat_server.Base.{String, true, false, some, [], ◌∷◌}
use qing_liao_chat_server.Wire.Endian.{Bytes}
use qing_liao_chat_server.Wire.DataPackage.{DataPackage}
use qing_liao_chat_server.Messages.{History, normal_message}
use qing_liao_chat_server.Room.{Names}
use qing_liao_chat_server.Group.Level.{min_level}
use qing_liao_chat_server.Group.Permission.{no_permissions, administrator, default}
use qing_liao_chat_server.Group.Room.{GroupRoom, nobody}
use qing_liao_chat_server.Private.{PrivateRoom}
use qing_liao_chat_server.User.{User, VerificationType, DeviceType, new_user}
use qing_liao_chat_server.Server.{Server, new_server, no_user}

abbrev pub first_user : User
first_user = new_user 1 5

-- Two users who know nothing of each other.
abbrev pub two : Server
two = record new_server { users = (1, first_user) ∷ (2, new_user 2 6) ∷ [] }

-- User 1 has asked user 2.
abbrev pub asked : Server
asked = record new_server {
  users =
      (
        1,
        record first_user {
          friend_verification_map =
              (2, record { user_id = 2; verification_type = VerificationType.sent; message = "" })
              ∷ [];
        },
      )
      ∷ (
        2,
        record (new_user 2 6) {
          friend_verification_map =
              (
                1,
                record { user_id = 1; verification_type = VerificationType.received; message = "" },
              )
              ∷ [];
        },
      )
      ∷ [];
  friend_room_verifications = ((1, 2), false) ∷ [];
}

-- A private room of the users 1 and 2.
abbrev pub open_private : PrivateRoom
open_private = record {
  user_id_1 = 1;
  user_id_2 = 2;
  can_be_used = true;
  message_map = [];
  members = (1, tt) ∷ (2, tt) ∷ [];
}

abbrev pub in_private : Server
in_private = record two {
  private_rooms = (3, open_private) ∷ [];
  private_room_ids = ((1, 2), 3) ∷ [];
}

-- The users 1 and 2 are friends.
abbrev pub friends : Server
friends = record in_private {
  users =
      (1, record first_user { friend_set = (2, tt) ∷ [] })
      ∷ (2, record (new_user 2 6) { friend_set = (1, tt) ∷ [] })
      ∷ [];
}

-- User 2 has made a group.
abbrev pub room : GroupRoom
room = record {
  group_id = 7;
  administrator_user_id = 2;
  can_be_used = true;
  permission = no_permissions;
  user_id_map = (2, record { nickname = "b"; level = min_level }) ∷ [];
  muted_user_map = [];
  message_map = [];
  members = (2, tt) ∷ [];
}

abbrev pub group_server : Server
group_server = record two { group_rooms = (7, room) ∷ [] }

-- User 1 is a member, and both have their types.
abbrev pub moderated : GroupRoom
moderated = record room {
  permission = record {
    permission_map = [];
    user_permission_map = (2, administrator) ∷ (1, default) ∷ [];
  };
  user_id_map =
      (1, record { nickname = "a"; level = min_level })
      ∷ (2, record { nickname = "b"; level = min_level })
      ∷ [];
  members = (1, tt) ∷ (2, tt) ∷ [];
}

abbrev pub everyone : Names
everyone id = some "user"

-- User 1 is logged in on the connection 9, nobody on the connection 8.
abbrev pub online : Server
online = record two {
  users =
      (1, record first_user { connection_map = (9, DeviceType.phone_device) ∷ [] })
      ∷ (2, new_user 2 6)
      ∷ [];
  connection_map = (9, 1) ∷ (8, no_user) ∷ [];
}

-- A user with a request for another group in the list.
abbrev pub asking_user : User
asking_user = record first_user {
  group_verification_map =
      (
        6,
        record {
          user_id = 1;
          group_id = 6;
          verification_type = VerificationType.sent;
          message = "";
        },
      )
      ∷ [];
}

abbrev pub plain_hash : String → String → String
plain_hash password salt = append password salt

abbrev pub sealed_user : User
sealed_user = record first_user { password = "olds1"; salt = "s1" }

abbrev pub history : History
history =
    (5, record { sender = 1; message = "a"; type = normal_message; receiver = nobody })
    ∷ (8, record { sender = 2; message = "b"; type = normal_message; receiver = nobody })
    ∷ []

abbrev pub five_bytes : Bytes
five_bytes = 0 ∷ 0 ∷ 0 ∷ 5 ∷ 65 ∷ []

abbrev pub wire : Bytes
wire =
    0 ∷ 0 ∷ 0 ∷ 25 ∷ 0 ∷ 0 ∷ 0 ∷ 1 ∷ 0 ∷ 0 ∷ 0 ∷ 1 ∷ 0 ∷ 0 ∷ 0 ∷ 0 ∷ 0 ∷ 0 ∷ 0 ∷ 0 ∷ 0 ∷ 0 ∷ 0 ∷ 77
    ∷ 65 ∷ []

abbrev pub one_package : DataPackage
one_package = record {
  length_field = 25;
  type = 1;
  sequence_size = 1;
  sequence = 0;
  request_id = 77;
  payload = 65 ∷ [];
}

-- The group room 7 as user 2 makes it.
abbrev pub new_room : GroupRoom
new_room = record room { user_id_map = (2, record { nickname = "user"; level = min_level }) ∷ [] }
