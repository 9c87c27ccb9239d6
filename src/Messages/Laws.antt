-- ===== src/Messages/Laws.antt =====
-- What the operations of a history do, for histories in key order.
use qing_liao_chat_server.Base.{
  ℕ, zero, suc, ◌+◌, ◌≤◌, ◌<◌, ◌≡◌, refl, true, none, some, [], ◌∷◌, arith, ltb, leb, ◌==◌,
  if◌then◌else◌, length, is_some, ◌&&◌,
}
use qing_liao_chat_server.Messages.{
  MessageStructure, History, find, insert_message, free_time, free_time_from, messages_between,
  from_lower_bound, to_upper_bound, week, clean,
}

-- Keys rise, and none is below the bound.
abbrev pub Above : ℕ → History → Type 0
Above n [] = Unit {0}
Above n ((s, x) ∷ h) = (n ≤ s) × Above (suc s) h

abbrev pub IsOrdered : History → Type 0
IsOrdered h = Above 0 h

pub Above-mono : (m n : ℕ) (h : History) → m ≤ n → Above n h → Above m h
Above-mono m n [] k a = tt
Above-mono m n ((s, x) ∷ h) k a = (omega arith, a.1)

pub find_below : (t n : ℕ) (h : History) → t < n → Above n h → find t h ≡ none
unfolding find
find_below t n [] k a = refl
find_below t n ((s, x) ∷ h) k a = ground (arith, find_below t (suc s) h)

pub insert_message-Above :
    (t n : ℕ) (m : MessageStructure) (h : History)
    → n ≤ t
    → Above n h
    → Above n (insert_message t m h)
unfolding insert_message
insert_message-Above t n m [] k a = (k, tt)
insert_message-Above t n m ((s, x) ∷ h) k a = ground (arith, insert_message-Above t (suc s) m h)

-- What a look-up finds after a message was stored.
pub find-insert_message :
    (j t n : ℕ) (m : MessageStructure) (h : History)
    → Above n h
    → find j (insert_message t m h)
      ≡ (if t == j then (if is_some (find t h) then find t h else some m) else find j h)
unfolding find insert_message
find-insert_message j t n m [] a = ground arith
find-insert_message j t n m ((s, x) ∷ h) a =
    ground (arith, find-insert_message j t (suc s) m h a.1, find_below t (suc s) h)

-- The number of entries at `t` or later.
later : ℕ → History → ℕ
later t [] = 0
later t ((s, x) ∷ h) = if leb t s then suc (later t h) else later t h

later-le-length : (t : ℕ) (h : History) → later t h ≤ length h
unfolding later
later-le-length t [] = omega arith
later-le-length t ((s, x) ∷ h) = ground (arith, later-le-length t h)

later_antitone : (t : ℕ) (h : History) → later (t + 1) h ≤ later t h
unfolding later
later_antitone t [] = omega arith
later_antitone t ((s, x) ∷ h) = ground (arith, later_antitone t h)

later_falls : (t : ℕ) (h : History) → is_some (find t h) ≡ true → later (t + 1) h < later t h
unfolding later find
later_falls t [] e = cc
later_falls t ((s, x) ∷ h) e = ground (arith, later_falls t h, later_antitone t h)

later_zero : (t : ℕ) (h : History) → later t h ≡ 0 → find t h ≡ none
unfolding later find
later_zero t [] e = refl
later_zero t ((s, x) ∷ h) e = ground (arith, later_zero t h)

free_time_from_free :
    (fuel t : ℕ) (h : History)
    → later t h ≤ fuel
    → (find (free_time_from fuel t h) h ≡ none) × (t ≤ free_time_from fuel t h)
unfolding free_time_from
free_time_from_free zero t h k = (later_zero t h (omega arith), omega arith)
free_time_from_free (suc fuel) t h k =
    ground (arith, later_falls t h, free_time_from_free fuel (t + 1) h)

-- The time that a message is stored at is one, from the clock's reading on, that no message has: the
-- loop ends within its fuel.
pub find-free_time : (t : ℕ) (h : History) → (find (free_time t h) h ≡ none) × (t ≤ free_time t h)
unfolding free_time
find-free_time t h = free_time_from_free (length h) t h (later-le-length t h)

find-from_lower_bound :
    (t from n : ℕ) (h : History)
    → Above n h
    → find t (from_lower_bound from h) ≡ (if ltb t from then none else find t h)
unfolding from_lower_bound find
find-from_lower_bound t from n [] a = ground arith
find-from_lower_bound t from n ((s, x) ∷ h) a =
    ground (arith, find-from_lower_bound t from (suc s) h a.1, find_below t (suc s) h)

from_lower_bound-Above : (from n : ℕ) (h : History) → Above n h → Above n (from_lower_bound from h)
unfolding from_lower_bound
from_lower_bound-Above from n [] a = tt
from_lower_bound-Above from n ((s, x) ∷ h) a = ground (
  arith,
  from_lower_bound-Above from (suc s) h a.1,
  Above-mono n (suc s) (from_lower_bound from h),
)

find-to_upper_bound :
    (t to n : ℕ) (h : History)
    → Above n h
    → find t (to_upper_bound to h) ≡ (if leb t to then find t h else none)
unfolding to_upper_bound find
find-to_upper_bound t to n [] a = ground arith
find-to_upper_bound t to n ((s, x) ∷ h) a =
    ground (arith, find-to_upper_bound t to (suc s) h a.1, find_below t (suc s) h)

to_upper_bound-Above : (to n : ℕ) (h : History) → Above n h → Above n (to_upper_bound to h)
unfolding to_upper_bound
to_upper_bound-Above to n [] a = tt
to_upper_bound-Above to n ((s, x) ∷ h) a = ground (arith, to_upper_bound-Above to (suc s) h a.1)

find-empty : (t : ℕ) → find t [] ≡ none
unfolding find
find-empty t = refl

clean-Above : (now n : ℕ) (h : History) → Above n h → Above n (clean now h)
unfolding clean
clean-Above now n [] a = tt
clean-Above now n ((s, x) ∷ h) a =
    ground (arith, clean-Above now (suc s) h a.1, Above-mono n (suc s) (clean now h))

find-clean_from :
    (t now n : ℕ) (h : History)
    → Above n h
    → find t (clean now h) ≡ (if leb (t + week) now then none else find t h)
unfolding clean find
find-clean_from t now n [] a = ground arith
find-clean_from t now n ((s, x) ∷ h) a =
    ground (arith, find-clean_from t now (suc s) h a.1, find_below t (suc s) h)

-- A query returns, in order of time, exactly the messages stored from `from` to `to`, both
-- included.
pub find-messages_between :
    (t from to : ℕ) (h : History)
    → IsOrdered h
    → IsOrdered (messages_between from to h)
      × (find t (messages_between from to h) ≡ (if leb from t && leb t to then find t h else none))
unfolding messages_between
find-messages_between t from to h a = ground (
  arith,
  to_upper_bound-Above to 0 (from_lower_bound from h) (from_lower_bound-Above from 0 h a),
  find-to_upper_bound t to 0 (from_lower_bound from h) (from_lower_bound-Above from 0 h a),
  find-from_lower_bound t from 0 h a,
  find-empty t,
)

-- Cleaning removes exactly the messages that are a week old or older.
pub find-clean :
    (t now : ℕ) (h : History)
    → IsOrdered h
    → IsOrdered (clean now h)
      × (find t (clean now h) ≡ (if leb (t + week) now then none else find t h))
find-clean t now h a = (clean-Above now 0 h a, find-clean_from t now 0 h a)
