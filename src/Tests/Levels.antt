-- ===== src/Tests/Levels.antt =====
-- Levels at their bounds.
use qing_liao_chat_server.Base.{◌≡◌, true, arith}
use qing_liao_chat_server.Base.Int.{ℤ, pos, ◌+ℤ◌}
use qing_liao_chat_server.Group.Level.{decrease}
use qing_liao_chat_server.Group.Level.Bounds.{InBounds, decrease-not-InBounds}

decrease-not-InBounds_example :
    let value : ℤ = (pos 40) in
    let m_value : ℤ = (pos 20) in
    ((decrease value m_value).1 ≡ true) × ¬ InBounds (decrease value m_value).0
unfolding ◌+ℤ◌
decrease-not-InBounds_example =
    decrease-not-InBounds (pos 40) (pos 20) (omega arith, omega arith) (omega arith) (omega arith)
