-- ===== src/Messages.antt =====
-- The message history of a room: `MessageStructure` (server/room/room.h) and the
-- `std::map<time_point, MessageStructure>` that GroupRoom and PrivateRoom keep
-- (server/room/groupRoom/groupRoom.cpp, server/room/privateRoom/privateRoom.cpp), in key order.
-- A time point is its number of ticks (nanoseconds) since the epoch of the clock; it does not wrap.
pub mod Laws
use qing_liao_chat_server.Base.{
  ℕ, zero, suc, ◌+◌, ◌*◌, ◌^◌, String, Bool, true, false, Option, none, some, List, [], ◌∷◌, ltb,
  leb, ◌==◌, if◌then◌else◌, length, is_some,
}

pub data MessageType : Type 0 where
  normal_message tip_message : MessageType

pub record MessageStructure : Type 0 where
  pub sender : ℕ
  pub message : String
  pub type : MessageType
  pub receiver : ℕ

abbrev pub History : Type 0
History = List (ℕ × MessageStructure)

-- `m_message_map.find(t)`
pub find : ℕ → History → Option MessageStructure
find t [] = none
find t ((s, m) ∷ h) = if s == t then some m else find t h

-- `m_message_map.insert({t, m})`: an entry that is there stays as it is.
pub insert_message : ℕ → MessageStructure → History → History
insert_message t m [] = (t, m) ∷ []
insert_message t m ((s, x) ∷ h) =
    if ltb t s
    then (t, m) ∷ (s, x) ∷ h
    else if t == s
    then (s, x) ∷ h
    else (s, x) ∷ insert_message t m h

-- `while (m_message_map.find(t) != m_message_map.cend()) ++t;` with fuel.
free_time_from : ℕ → ℕ → History → ℕ
free_time_from zero t h = t
free_time_from (suc fuel) t h = elim (is_some (find t h)) [
  | true ↦ free_time_from fuel (t + 1) h
  | false ↦ t
]

-- As much fuel as there are entries is enough (`Laws.find-free_time`).
pub free_time : ℕ → History → ℕ
unfolding free_time_from
free_time t h = free_time_from (length h) t h

-- `for (; start != end; ++start) revec.emplace_back(...)` from `lower_bound(from)` to
-- `upper_bound(to)`, after the test `from > to`.
from_lower_bound : ℕ → History → History
from_lower_bound from [] = []
from_lower_bound from ((s, x) ∷ h) = if ltb s from then from_lower_bound from h else (s, x) ∷ h

to_upper_bound : ℕ → History → History
to_upper_bound to [] = []
to_upper_bound to ((s, x) ∷ h) = if leb s to then (s, x) ∷ to_upper_bound to h else []

pub messages_between : ℕ → ℕ → History → History
unfolding from_lower_bound to_upper_bound
messages_between from to h = if ltb to from then [] else to_upper_bound to (from_lower_bound from h)

-- Seven days, in ticks.
abbrev pub week : ℕ
week = 7 * 24 * 60 * 60 * 10 ^ 9

-- One round of `auto_clean`: `erase(begin(), upper_bound(now - week))`. The comparison is written
-- without the subtraction, which on signed ticks may pass the epoch.
pub clean : ℕ → History → History
clean now [] = []
clean now ((s, x) ∷ h) = if leb (s + week) now then clean now h else (s, x) ∷ h
