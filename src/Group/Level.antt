-- ===== src/Group/Level.antt =====
-- server/room/groupRoom/groupUserLevel.hpp: the level of a member. `UserLevel<>` has the default
-- bounds; an object is its `m_value`, an `int` that no call brings near its limits.
pub mod Bounds
use qing_liao_chat_server.Base.{Bool, true, false, ◌||◌, if◌then◌else◌}
use qing_liao_chat_server.Base.Int.{ℤ, pos, ◌+ℤ◌, ◌-ℤ◌, ltb_ℤ}
use qing_liao_chat_server.Error.{Result, ok, throw, group_room_user_level_invalid}

abbrev pub min_level : ℤ
min_level = pos 1

abbrev pub max_level : ℤ
max_level = pos 100

-- The constructor tests its argument, and sets the lowest level whatever the argument is.
pub user_level : ℤ → Result ℤ
user_level value =
    if ltb_ℤ value min_level || ltb_ℤ max_level value
    then throw group_room_user_level_invalid
    else ok min_level

pub increase : ℤ → ℤ → ℤ × Bool
increase value m_value =
    if ltb_ℤ (m_value +ℤ value) min_level || ltb_ℤ max_level (m_value +ℤ value)
    then (m_value, false)
    else (m_value +ℤ value, true)

-- The test is that of `increase`; the value is subtracted.
pub decrease : ℤ → ℤ → ℤ × Bool
decrease value m_value =
    if ltb_ℤ (m_value +ℤ value) min_level || ltb_ℤ max_level (m_value +ℤ value)
    then (m_value, false)
    else (m_value -ℤ value, true)

-- `getValue`
pub get_value : ℤ → ℤ
get_value m_value = m_value
