-- ===== src/Json.antt =====
-- The JSON values of a message. The JSON library (qjson, the file Json.h of the submodule
-- utils/parser) is a parameter: what the server asks of a value that it has received. An answer is
-- the data that the server puts into one (utils/returnStateMessage.hpp and what the commands add).
use qing_liao_chat_server.Base.{
  ℕ, String, ◌≡◌, Bool, true, false, Option, none, some, List, [], ◌∷◌, ◌++◌, is_some,
}
use qing_liao_chat_server.Error.{Action, logic_error, pure, fail}
use qing_liao_chat_server.Map.{Map}
use qing_liao_chat_server.User.{UserVerification, GroupVerification}

-- `qjson::JValueType`, with all types that the server never asks for as one.
pub data JValueType : Type 0 where
  jint jstring jdict jother : JValueType

abbrev pub type_beq : JValueType → JValueType → Bool
type_beq jint jint = true
type_beq jstring jstring = true
type_beq jdict jdict = true
type_beq jother jother = true
type_beq _ _ = false

-- `getType`, `getDict().find` (and with it `hasMember`), `operator[]`, `getInt`, `getString` and
-- `to_json`. A call that returns none throws a `std::exception`. An integer is its 64-bit pattern.
pub record Json (J : Type 0) : Type 0 where
  pub get_type : J → JValueType
  pub find : String → J → Option J
  pub at : String → J → Option J
  pub get_int : J → Option ℕ
  pub get_string : J → Option String
  pub to_json : List ℕ → Option J

-- A value has what its type says, and `operator[]` gives a member that is there.
pub record IsTyped {J : Type 0} (json : Json J) : Type 0 where
  pub int_typed : (j : J) → json.get_type j ≡ jint → is_some (json.get_int j) ≡ true
  pub string_typed : (j : J) → json.get_type j ≡ jstring → is_some (json.get_string j) ≡ true
  pub at_found : (name : String) (j v : J) → json.find name j ≡ some v → json.at name j ≡ some v

-- A read of a JSON value that may throw.
abbrev pub or_throw : {S A : Type 0} → Option A → Action S A
or_throw none = fail logic_error
or_throw (some a) = pure a

-- `json[name].getInt()` and `json[name].getString()`
abbrev pub int_at : {S J : Type 0} → Json J → String → J → Action S ℕ
int_at json name j s = elim (json.at name j) [
  | none ↦ (or_throw none) s
  | some v ↦ (or_throw (json.get_int v)) s
]

abbrev pub string_at : {S J : Type 0} → Json J → String → J → Action S String
string_at json name j s = elim (json.at name j) [
  | none ↦ (or_throw none) s
  | some v ↦ (or_throw (json.get_string v)) s
]

-- What these reads give, if they do not throw.
abbrev pub int_of : {J : Type 0} → Json J → String → J → Option ℕ
int_of json name j = elim (json.at name j) [ none ↦ none | some v ↦ json.get_int v ]

abbrev pub string_of : {J : Type 0} → Json J → String → J → Option String
string_of json name j = elim (json.at name j) [ none ↦ none | some v ↦ json.get_string v ]

-- What an answer has next to its state and its message. The list of group requests is a dictionary
-- with the id of the group as the key.
pub data Field : Type 0 where
  int_field : ℕ → Field
  bool_field : Bool → Field
  list_field : List ℕ → Field
  friend_requests : List (ℕ × UserVerification) → Field
  group_requests : Map ℕ GroupVerification → Field

pub data State : Type 0 where
  success error : State

pub record Answer : Type 0 where
  pub state : State
  pub message : String
  pub fields : Map String Field

unfoldable pub make_message : State → String → Answer
make_message state message = record { state = state; message = message; fields = [] }

unfoldable pub make_error_message : String → Answer
unfolding make_message
make_error_message message = make_message error message

unfoldable pub make_success_message : String → Answer
unfolding make_message
make_success_message message = make_message success message

-- `returnJson[name] = ...` on an answer without this member.
abbrev pub with_field : String → Field → Answer → Answer
with_field name f a = record a { fields = a.fields ++ ((name, f) ∷ []) }

abbrev pub is_error : Answer → Bool
is_error a = elim a.state [ success ↦ false | error ↦ true ]
