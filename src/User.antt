-- ===== src/User.antt =====
-- The data of one user (server/user/user.h, user.cpp: `UserImpl` and the methods that stay inside
-- it). What reaches other users through the manager is under `Server`. The password hash (SHA3-512
-- by OpenSSL) is a parameter, and so is the salt that the random generator gives.
pub mod Passwords
pub mod Verifications
use qing_liao_chat_server.Base.{
  ℕ, ◌+◌, ◌%◌, ◌^◌, String, Bool, true, false, Option, none, some, List, [], ◌∷◌, not, ltb, ◌==◌,
  if◌then◌else◌,
}
use qing_liao_chat_server.Base.Int.{ℤ, pos}
use qing_liao_chat_server.Error.{
  Action, Result, ok, err, throw, raise, undefined_behaviour, password_already_set,
  password_mismatched, verification_not_existed, socket_pointer_existed, null_socket_pointer, ◌>>=◌,
  ◌>>◌, pure, gets, modify, raise_if,
}
use qing_liao_chat_server.Map.{
  Map, Set, lookup, contains, insert, emplace, erase, id_key, string_key,
}

pub data VerificationType : Type 0 where
  unknown sent received : VerificationType

pub record UserVerification : Type 0 where
  pub user_id : ℕ
  pub verification_type : VerificationType
  pub message : String

pub record GroupVerification : Type 0 where
  pub user_id : ℕ
  pub group_id : ℕ
  pub verification_type : VerificationType
  pub message : String

pub data DeviceType : Type 0 where
  unknown_device personal_computer phone_device web : DeviceType

-- The order of a `std::multimap<GroupID, …>`: that of the signed 64-bit ids.
abbrev id_lt : ℕ → ℕ → Bool
id_lt a b = ltb ((a + 2 ^ 63) % 2 ^ 64) ((b + 2 ^ 63) % 2 ^ 64)

abbrev pub GroupVerificationMap : Type 0
GroupVerificationMap = List (ℕ × GroupVerification)

pub record User : Type 0 where
  pub user_id : ℕ
  pub user_name : String
  pub registered_time : ℕ
  pub age : ℤ
  pub email : String
  pub phone : String
  pub profile : String
  pub password : String
  pub salt : String
  pub friend_set : Set ℕ
  pub friend_verification_map : Map ℕ UserVerification
  pub group_set : Set ℕ
  pub group_verification_map : GroupVerificationMap
  pub connection_map : Map ℕ DeviceType

-- The constructor, at the time of the clock.
unfoldable pub new_user : ℕ → ℕ → User
new_user user_id now = record {
  user_id = user_id;
  user_name = "";
  registered_time = now;
  age = pos 0;
  email = "";
  phone = "";
  profile = "";
  password = "";
  salt = "";
  friend_set = [];
  friend_verification_map = [];
  group_set = [];
  group_verification_map = [];
  connection_map = [];
}

module _ (hash : String → String → String) where
  unfoldable pub is_user_password : String → User → Bool
  is_user_password password u = string_key.beq (hash password u.salt) u.password

  unfoldable pub set_password : String → String → User → User
  set_password new_password new_salt u = record u {
    password = hash new_password new_salt;
    salt = new_salt;
  }

  -- The salt is the next number of the random generator.
  unfoldable pub first_update_user_password : String → String → Action User (Unit {0})
  first_update_user_password new_password new_salt = do
    empty ← gets (λ u. string_key.beq u.password "")
    raise_if (not empty) password_already_set
    modify (set_password new_password new_salt)

  pub update_user_password : String → String → String → Action User (Unit {0})
  update_user_password old_password new_password new_salt = do
    matches ← gets (is_user_password old_password)
    raise_if (not matches) password_mismatched
    modify (set_password new_password new_salt)

pub update_user_name : String → User → User
update_user_name user_name u = record u { user_name = user_name }

pub update_age : ℤ → User → User
update_age age u = record u { age = age }

unfoldable pub update_user_email : String → User → User
update_user_email email u = record u { email = email }

pub update_user_phone : String → User → User
update_user_phone number u = record u { phone = number }

pub update_user_profile : String → User → User
update_user_profile profile u = record u { profile = profile }

unfoldable pub user_has_friend : ℕ → User → Bool
user_has_friend id u = contains id u.friend_set

unfoldable pub user_has_group : ℕ → User → Bool
user_has_group id u = contains id u.group_set

-- `updateFriendList` and `updateGroupList`: the callbacks of the program insert an id.
unfoldable pub insert_friend : ℕ → User → User
insert_friend id u = record u { friend_set = emplace id tt u.friend_set }

unfoldable pub insert_group : ℕ → User → User
insert_group id u = record u { group_set = emplace id tt u.group_set }

-- `UserImpl::removeFriend`
unfoldable pub erase_friend : ℕ → User → User
erase_friend id u = record u {
  friend_set = if contains id u.friend_set then erase id u.friend_set else u.friend_set;
}

-- `addFriendVerification` calls `emplace`.
unfoldable pub add_friend_verification : ℕ → UserVerification → User → User
add_friend_verification id v u = record u {
  friend_verification_map = emplace id v u.friend_verification_map;
}

unfoldable pub remove_friend_verification : ℕ → User → User
remove_friend_verification id u = record u {
  friend_verification_map =
      if contains id u.friend_verification_map
      then erase id u.friend_verification_map
      else u.friend_verification_map;
}

-- `insert` of a multimap: behind the entries of the same key.
pub insert_multi : ℕ → GroupVerification → GroupVerificationMap → GroupVerificationMap
insert_multi k v [] = (k, v) ∷ []
insert_multi k v ((j, w) ∷ m) =
    if id_lt k j then (k, v) ∷ (j, w) ∷ m else (j, w) ∷ insert_multi k v m

unfoldable pub add_group_verification : ℕ → GroupVerification → User → User
add_group_verification id v u = record u {
  group_verification_map = insert_multi id v u.group_verification_map;
}

-- The loop of `removeGroupVerification`, from the first entry of the group on. It reads the entry
-- before it tests for the end.
erase_from : ℕ → ℕ → GroupVerificationMap → Result GroupVerificationMap
erase_from group_id user_id [] = err undefined_behaviour
erase_from group_id user_id ((j, w) ∷ m) =
    let rest = erase_from group_id user_id m in
    if not (j == group_id)
    then ok ((j, w) ∷ m)
    else if w.user_id == user_id
    then ok m
    else elim rest [ ok m' ↦ ok ((j, w) ∷ m') | err e ↦ err e ]

-- `find(group_id)` and the loop; `verification_not_existed` where `count(group_id)` is zero.
pub erase_multi : ℕ → ℕ → GroupVerificationMap → Result GroupVerificationMap
erase_multi group_id user_id [] = throw verification_not_existed
erase_multi group_id user_id ((j, w) ∷ m) =
    let rest = erase_multi group_id user_id m in
    if j == group_id
    then erase_from group_id user_id ((j, w) ∷ m)
    else elim rest [ ok m' ↦ ok ((j, w) ∷ m') | err e ↦ err e ]

unfoldable pub remove_group_verification : ℕ → ℕ → Action User (Unit {0})
remove_group_verification group_id user_id u =
    elim (erase_multi group_id user_id u.group_verification_map) [
      | ok m ↦ (ok tt, record u { group_verification_map = m })
      | err e ↦ (err e, u)
    ]

unfoldable pub add_connection : ℕ → DeviceType → Action User (Unit {0})
add_connection c type u =
    if contains c u.connection_map
    then (throw socket_pointer_existed, u)
    else (ok tt, record u { connection_map = insert c type u.connection_map })

unfoldable pub has_connection : ℕ → User → Bool
has_connection c u = contains c u.connection_map

pub modify_connection_type : ℕ → DeviceType → Action User (Unit {0})
modify_connection_type c type u =
    if contains c u.connection_map
    then (ok tt, record u { connection_map = insert c type u.connection_map })
    else (throw null_socket_pointer, u)

unfoldable pub remove_connection : ℕ → Action User (Unit {0})
remove_connection c u =
    if contains c u.connection_map
    then (ok tt, record u { connection_map = erase c u.connection_map })
    else (throw null_socket_pointer, u)
