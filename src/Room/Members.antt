-- ===== src/Room/Members.antt =====
-- Who is in a room and who hears what is sent to it (server/room/room.cpp).
use qing_liao_chat_server.Base.{
  ℕ, ◌≡◌, refl, ap, ==_iff, inl, inr, Bool, false, List, [], ◌∷◌, arith, ◌==◌, ◌||◌, ◌&&◌,
  if◌then◌else◌, is_some, Bool-cases,
}
use qing_liao_chat_server.Error.{ok, throw, user_not_existed}
use qing_liao_chat_server.Map.{Set, lookup, id_key, lookup-insert, lookup-erase}
use qing_liao_chat_server.Room.{Notice, Delivery, Names, join_room, has_user, leave_room, send_data}

-- A join makes a member of a user whom the server knows, or throws and changes nothing; nobody
-- else's membership changes.
pub has_user-join_room :
    (names : Names) (u v : ℕ) (members : Set ℕ)
    → has_user v (join_room names u members).1
      ≡ (if u == v then has_user v members || is_some (names u) else has_user v members)
unfolding has_user join_room
has_user-join_room names u v members = ground (arith, lookup-insert v u tt members)

pub has_user-empty : (v : ℕ) → has_user v [] ≡ false
unfolding has_user lookup
has_user-empty v = refl

pub has_user-leave_room :
    (u v : ℕ) (members : Set ℕ)
    → has_user v (leave_room u members) ≡ (if u == v then false else has_user v members)
unfolding has_user leave_room
has_user-leave_room u v members = ground (arith, lookup-erase v u members)

-- Whether a user is among the receivers.
abbrev pub receives : ℕ → List Delivery → Bool
receives v [] = false
receives v ((u, n) ∷ ds) = u == v || receives v ds

-- What is sent to a room reaches exactly its members, as far as the server knows them.
pub receives-send_data :
    (names : Names) (notice : Notice) (v : ℕ) (members : Set ℕ)
    → receives v (send_data names notice members) ≡ (has_user v members && is_some (names v))
unfolding send_data has_user lookup
receives-send_data names notice v [] = refl
receives-send_data names notice v ((u, t) ∷ members) = elim (Bool-cases (u == v)) [
  | inl same ↦
      ground (arith, ap names ((==_iff u v).0 same), receives-send_data names notice v members)
  | inr other ↦ ground (arith, receives-send_data names notice v members)
]

-- How a join ends.
pub join_room_lem :
    (names : Names) (u : ℕ) (members : Set ℕ)
    → (join_room names u members).0
      ≡ (if has_user u members || is_some (names u) then ok tt else throw user_not_existed)
unfolding has_user join_room
join_room_lem names u members = ground arith
