-- ===== src/Tests/History.antt =====
-- A history of two messages.
use qing_liao_chat_server.Base.{ℕ, ◌≤◌, ◌≡◌, none, arith, leb, if◌then◌else◌, ◌&&◌}
use qing_liao_chat_server.Messages.{History, find, free_time, messages_between}
use qing_liao_chat_server.Messages.Laws.{IsOrdered, find-free_time, find-messages_between}
use qing_liao_chat_server.Tests.Data.{history}

find-messages_between_example :
    let t : ℕ = 8 in
    let from : ℕ = 6 in
    let to : ℕ = 9 in
    let h : History = history in
    IsOrdered (messages_between from to h)
    × (find t (messages_between from to h) ≡ (if leb from t && leb t to then find t h else none))
find-messages_between_example = find-messages_between 8 6 9 history (omega arith, (omega arith, tt))

find-free_time_example :
    let t : ℕ = 5 in
    let h : History = history in (find (free_time t h) h ≡ none) × (t ≤ free_time t h)
find-free_time_example = find-free_time 5 history
