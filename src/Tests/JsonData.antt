-- ===== src/Tests/JsonData.antt =====
-- JSON values for the examples: the values that the client and the server make, as they are.
use text.Mathlib.Text.{◌==◌ as str_eq}
use qing_liao_chat_server.Base.{
  ℕ, String, ◌≡◌, refl, Option, none, some, List, [], ◌∷◌, arith, if◌then◌else◌,
}
use qing_liao_chat_server.Map.{lookup, string_key}
use qing_liao_chat_server.Json.{
  Json, IsTyped, JValueType, jint, jstring, jdict, Answer, Field, int_field,
}
use qing_liao_chat_server.Server.Commands.Users.{World}
use qing_liao_chat_server.Client.{Message, Value, int_value, string_value}
use qing_liao_chat_server.Client.Transport.{Transport, IsFaithful, state_text, of_parameter}
use qing_liao_chat_server.Tests.Data.{plain_hash}

pub data Plain : Type 0 where
  plain_int : ℕ → Plain
  plain_string : String → Plain
  plain_parameters : List (String × Value) → Plain
  plain_message : Message → Plain
  plain_answer : Answer → Plain

abbrev pub type_of : Plain → JValueType
type_of (plain_int n) = jint
type_of (plain_string x) = jstring
type_of (plain_parameters ps) = jdict
type_of (plain_message m) = jdict
type_of (plain_answer a) = jdict

abbrev pub plain_value : Option Value → Option Plain
plain_value none = none
plain_value (some (int_value n)) = some (plain_int n)
plain_value (some (string_value x)) = some (plain_string x)

abbrev pub plain_field : Option Field → Option Plain
plain_field (some (int_field n)) = some (plain_int n)
plain_field _ = none

abbrev pub find : String → Plain → Option Plain
find name (plain_int n) = none
find name (plain_string x) = none
find name (plain_parameters ps) = plain_value (lookup name ps)
find name (plain_message m) =
    if str_eq name "function"
    then some (plain_string m.function)
    else if str_eq name "parameters"
    then some (plain_parameters m.parameters)
    else none
find name (plain_answer a) =
    if str_eq name "state"
    then some (plain_string (state_text a.state))
    else if str_eq name "message"
    then some (plain_string a.message)
    else plain_field (lookup name a.fields)

abbrev pub get_int : Plain → Option ℕ
get_int (plain_int n) = some n
get_int _ = none

abbrev pub get_string : Plain → Option String
get_string (plain_string x) = some x
get_string _ = none

abbrev pub question : Message
question = record { function = "has_user"; parameters = ("user_id", int_value 2) ∷ [] }

abbrev pub plain_json : Json Plain
plain_json = record {
  get_type = type_of;
  find = find;
  at = find;
  get_int = get_int;
  get_string = get_string;
  to_json = λ bytes. some (plain_message question);
}

abbrev pub plain : Transport Plain
plain = record {
  json = plain_json;
  of_int = plain_int;
  of_string = plain_string;
  of_parameters = plain_parameters;
  of_message = plain_message;
  of_answer = plain_answer;
}

pub plain_json-IsTyped : IsTyped plain_json
plain_json-IsTyped = record {
  int_typed = λ j typed. ground (arith, typed);
  string_typed = λ j typed. ground (arith, typed);
  at_found = λ name j v found. found;
}

plain_value_lem : (o : Option Value) → plain_value o ≡ of_parameter plain o
plain_value_lem none = refl
plain_value_lem (some (int_value n)) = refl
plain_value_lem (some (string_value x)) = refl

pub plain-IsFaithful : IsFaithful plain
plain-IsFaithful = record {
  typed = plain_json-IsTyped;
  int_type = λ n. refl;
  int_read = λ n. refl;
  string_type = λ x. refl;
  string_read = λ x. refl;
  parameters_type = λ ps. refl;
  parameters_find = λ name ps. plain_value_lem (lookup name ps);
  message_type = λ m. refl;
  message_function = λ m. refl;
  message_parameters = λ m. refl;
  answer_state = λ a. refl;
  answer_message = λ a. refl;
}

abbrev pub today : World
today = record { hash = plain_hash; salt = "s"; now = 7; later = 8 }
