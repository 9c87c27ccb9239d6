-- ===== src/Client/Network.antt =====
-- The client's side of the network: the requests that wait for an answer, the callbacks, and the
-- printing of bytes (testclient/network.cpp). The connection itself, with its threads, is left out; a
-- function is an entry of a table, and calling one is noted in the state.
pub mod Answers
pub mod Hex
use qing_liao_chat_server.Base.{
  ℕ, zero, suc, ◌+◌, ◌/◌, ◌%◌, String, Bool, true, false, not, Option, none, some, List, [], ◌∷◌,
  ◌++◌, ◌==◌, ◌&&◌, leb, ltb, if◌then◌else◌,
}
use qing_liao_chat_server.Error.{Action, Result, ok, err, logic_error, undefined_behaviour}
use qing_liao_chat_server.Map.{Map, Set, lookup, contains, insert, erase, keys, id_key, string_key}
use qing_liao_chat_server.Wire.Endian.{Bytes}
use qing_liao_chat_server.Wire.DataPackage.{
  DataPackage, make_package, unknown_type, package_to_string, string_to_package,
}

-- `NetworkImpl` with what has been sent and which callbacks have been called. `F` are the functions
-- that take the answer to a request.
pub record Network (F : Type 0) : Type 0 where
  pub is_receiving : Bool
  pub request_id_set : Set ℕ
  pub request_id_function_map : Map ℕ F
  pub received_function_map : Map String (Unit {0})
  pub sent : List Bytes
  pub called : List (F × DataPackage)
  pub broadcast : List (String × Bytes)

-- `do id = mt(); while (set.find(id) != set.cend())` over the next numbers of the generator; none
-- where all of these are in use.
unfoldable pub draw_id : List ℕ → Set ℕ → Option ℕ
draw_id [] ids = none
draw_id (id ∷ numbers) ids =
    let rest = draw_id numbers ids in if contains id ids then rest else some id

-- Every callback for what nobody waits for.
abbrev pub call_all : Bytes → List String → List (String × Bytes)
call_all bytes [] = []
call_all bytes (name ∷ names) = (name, bytes) ∷ call_all bytes names

module _ {F : Type 0} where
  -- `add_received_stdstring_callback` and the other three pairs of calls on a table of callbacks;
  -- they return whether they changed it.
  pub add_callback : String → F → Map String F → Bool × Map String F
  add_callback name function table =
      if contains name table then (false, table) else (true, insert name function table)

  pub remove_callback : String → Map String F → Bool × Map String F
  remove_callback name table =
      if not (contains name table) then (false, table) else (true, erase name table)

  -- `send_data`
  unfoldable pub send_data : Bytes → Action (Network F) (Unit {0})
  send_data bytes s =
      if not s.is_receiving
      then (err logic_error, s)
      else (ok tt, record s { sent = s.sent ++ (bytes ∷ []) })

  -- Registers the request under the id and sends it.
  unfoldable pub send_request : DataPackage → F → ℕ → Action (Network F) ℕ
  unfolding send_data
  send_request pack callback id s =
      let t = record s {
        request_id_set = insert id tt s.request_id_set;
        request_id_function_map = insert id callback s.request_id_function_map;
      } in
      elim (package_to_string (record pack { request_id = id })) [
        | err e ↦ (err e, t)
        | ok bytes ↦
            let (r, u) = send_data bytes t in elim r [ ok _ ↦ (ok id, u) | err e ↦ (err e, u) ]
      ]

  -- `send_data_with_option` with the next numbers of the generator; it has not returned where they
  -- are all in use.
  unfoldable pub send_data_with_option :
      List ℕ → Bytes → (DataPackage → DataPackage) → F → Network F → Option (Result ℕ × Network F)
  send_data_with_option numbers data_bytes option callback s =
      if not s.is_receiving
      then some (err logic_error, s)
      else elim (draw_id numbers s.request_id_set) [
        | none ↦ none
        | some id ↦
            some (send_request (option (make_package data_bytes unknown_type 1 0 0)) callback id s)
      ]

  -- The part of `call_received_stdstring` for an answer that is waited for.
  unfoldable pub answer_request : DataPackage → Action (Network F) (Unit {0})
  answer_request pack s =
      let t = record s { request_id_set = erase pack.request_id s.request_id_set } in
      elim (lookup pack.request_id s.request_id_function_map) [
        | none ↦ (err undefined_behaviour, t)
        | some function ↦ (
          ok tt,
          record t {
            called = s.called ++ ((function, pack) ∷ []);
            request_id_function_map = erase pack.request_id s.request_id_function_map;
          },
        )
      ]

  -- `call_received_stdstring`
  unfoldable pub call_received_stdstring : Bytes → Action (Network F) (Unit {0})
  unfolding answer_request
  call_received_stdstring bytes s = elim (string_to_package bytes) [
    | err e ↦ (ok tt, s)
    | ok pack ↦
        if not (pack.request_id == 0) && contains pack.request_id s.request_id_set
        then answer_request pack s
        else (
          ok tt,
          record s { broadcast = s.broadcast ++ call_all bytes (keys s.received_function_map) },
        )
  ]

-- The digits of a number, with fuel.
abbrev pub digit : ℕ → ℕ
digit n = if ltb n 10 then 48 + n else 87 + n

unfoldable pub hex : ℕ → ℕ → Bytes
hex zero n = []
hex (suc fuel) n = elim (n == 0) [ true ↦ [] | false ↦ digit (n % 16) ∷ hex fuel (n / 16) ]

-- `\x` and the digits of a byte; two steps of fuel are enough, since a byte is below 256.
unfoldable pub escaped : ℕ → Bytes
unfolding hex
escaped byte = elim (hex 2 byte) [
  | [] ↦ 92 ∷ 120 ∷ 48 ∷ 48 ∷ []
  | a ∷ digits ↦ elim digits [ [] ↦ 92 ∷ 120 ∷ 48 ∷ a ∷ [] | b ∷ more ↦ 92 ∷ 120 ∷ a ∷ b ∷ more ]
]

abbrev pub is_showable : ℕ → Bool
is_showable byte = leb 32 byte && leb byte 126

unfoldable pub show_binary_data : Bytes → Bytes
unfolding escaped
show_binary_data [] = []
show_binary_data (byte ∷ bytes) =
    let rest = show_binary_data bytes in
    if is_showable byte then byte ∷ rest else escaped byte ++ rest
