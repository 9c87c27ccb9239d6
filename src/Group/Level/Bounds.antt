-- ===== src/Group/Level/Bounds.antt =====
-- Which calls keep a level between its bounds (server/room/groupRoom/groupUserLevel.hpp).
use qing_liao_chat_server.Base.{◌≡◌, ◌⊎◌, true, false, arith}
use qing_liao_chat_server.Base.Int.{ℤ, ◌+ℤ◌, ◌≤ℤ◌, +ℤ_parts, -ℤ_parts}
use qing_liao_chat_server.Group.Level.{min_level, max_level, increase, decrease}

abbrev pub InBounds : ℤ → Type 0
InBounds v = (min_level ≤ℤ v) × (v ≤ℤ max_level)

-- `increase` keeps the level in bounds: it adds its argument if the sum is in bounds, and says so,
-- or changes nothing.
pub increase-InBounds :
    (value m_value : ℤ)
    → InBounds m_value
    → InBounds (increase value m_value).0
      × ((increase value m_value ≡ (m_value +ℤ value, true)) × InBounds (m_value +ℤ value)
          ⊎ (increase value m_value ≡ (m_value, false)) × ¬ InBounds (m_value +ℤ value))
unfolding increase
increase-InBounds value m_value h = ground (arith, +ℤ_parts m_value value)

-- `decrease` by a level's own amount or more leaves the bounds and reports success, whenever the
-- amount could have been added.
pub decrease-not-InBounds :
    (value m_value : ℤ)
    → InBounds m_value
    → m_value ≤ℤ value
    → m_value +ℤ value ≤ℤ max_level
    → ((decrease value m_value).1 ≡ true) × ¬ InBounds (decrease value m_value).0
unfolding decrease
decrease-not-InBounds value m_value h k l =
    ground (arith, +ℤ_parts m_value value, -ℤ_parts m_value value)
