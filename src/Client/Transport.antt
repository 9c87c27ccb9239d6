-- ===== src/Client/Transport.antt =====
-- The way from the client to the server and back, with the JSON library as a parameter: what the
-- client makes is what the server reads, and the other way round (testclient/session.cpp,
-- server/socketFunctions/socketFunctions.cpp).
use qing_liao_chat_server.Base.{ℕ, String, ◌≡◌, Option, none, some, List, arith}
use qing_liao_chat_server.Error.{Action, ok, err}
use qing_liao_chat_server.Map.{lookup, string_key}
use qing_liao_chat_server.Json.{
  Json, IsTyped, jint, jstring, jdict, Answer, State, success, error, int_of, string_of,
}
use qing_liao_chat_server.Server.Login.{Session}
use qing_liao_chat_server.Server.Commands.Users.{World}
use qing_liao_chat_server.Server.Dispatch.{request, read_request, process_json_message}
use qing_liao_chat_server.Client.{Message, Value, int_value, string_value}

abbrev pub state_text : State → String
state_text success = "success"
state_text error = "error"

-- What becomes of the values that the two sides make, once they are written as text and read again.
pub record Transport (J : Type 0) : Type 0 where
  pub json : Json J
  pub of_int : ℕ → J
  pub of_string : String → J
  pub of_parameters : List (String × Value) → J
  pub of_message : Message → J
  pub of_answer : Answer → J

module _ {J : Type 0} (io : Transport J) where
  abbrev pub of_value : Value → J
  of_value (int_value n) = io.of_int n
  of_value (string_value text) = io.of_string text

  abbrev pub of_parameter : Option Value → Option J
  of_parameter none = none
  of_parameter (some v) = some (of_value v)

-- A value is read as what it was made of.
pub record IsFaithful {J : Type 0} (io : Transport J) : Type 0 where
  pub typed : IsTyped io.json
  pub int_type : (n : ℕ) → io.json.get_type (io.of_int n) ≡ jint
  pub int_read : (n : ℕ) → io.json.get_int (io.of_int n) ≡ some n
  pub string_type : (x : String) → io.json.get_type (io.of_string x) ≡ jstring
  pub string_read : (x : String) → io.json.get_string (io.of_string x) ≡ some x
  pub parameters_type :
      (ps : List (String × Value)) → io.json.get_type (io.of_parameters ps) ≡ jdict
  pub parameters_find :
      (name : String) (ps : List (String × Value))
      → io.json.find name (io.of_parameters ps) ≡ of_parameter io (lookup name ps)
  pub message_type : (m : Message) → io.json.get_type (io.of_message m) ≡ jdict
  pub message_function :
      (m : Message) → io.json.find "function" (io.of_message m) ≡ some (io.of_string m.function)
  pub message_parameters :
      (m : Message)
      → io.json.find "parameters" (io.of_message m) ≡ some (io.of_parameters m.parameters)
  pub answer_state :
      (a : Answer)
      → io.json.find "state" (io.of_answer a) ≡ some (io.of_string (state_text a.state))
  pub answer_message :
      (a : Answer) → io.json.find "message" (io.of_answer a) ≡ some (io.of_string a.message)

module _ {J : Type 0} (io : Transport J) (world : World) (c : ℕ) where
  -- The message goes to the server's message process of the connection `c`, and its answer back.
  abbrev pub ask_server : Message → Action Session J
  ask_server m s =
      let (r, t) = process_json_message io.json world c (io.of_message m) s in
      elim r [ ok a ↦ (ok (io.of_answer a), t) | err e ↦ (err e, t) ]

module _ {J : Type 0} (io : Transport J) (faithful : IsFaithful io) where
  pub read_request-of_message :
      {S : Type 0} (m : Message) (s : S)
      → read_request io.json (io.of_message m) s
        ≡ (ok (request m.function (io.of_parameters m.parameters)), s)
  unfolding read_request
  read_request-of_message m s = ground (
    arith,
    faithful.message_type m,
    faithful.message_function m,
    faithful.message_parameters m,
    faithful.typed.at_found "function" (io.of_message m) (io.of_string m.function)
        (faithful.message_function m),
    faithful.typed.at_found "parameters" (io.of_message m) (io.of_parameters m.parameters)
        (faithful.message_parameters m),
    faithful.string_type m.function,
    faithful.string_read m.function,
    faithful.parameters_type m.parameters,
  )

  -- What a command finds among the parameters.
  pub int_of-of_parameters :
      (name : String) (n : ℕ) (ps : List (String × Value))
      → lookup name ps ≡ some (int_value n)
      → int_of io.json name (io.of_parameters ps) ≡ some n
  int_of-of_parameters name n ps there =
      let found : io.json.find name (io.of_parameters ps) ≡ some (io.of_int n) =
        ground (arith, faithful.parameters_find name ps, there) in
      ground (
        arith,
        faithful.typed.at_found name (io.of_parameters ps) (io.of_int n) found,
        faithful.int_read n,
      )

  pub string_of-of_parameters :
      (name x : String) (ps : List (String × Value))
      → lookup name ps ≡ some (string_value x)
      → string_of io.json name (io.of_parameters ps) ≡ some x
  string_of-of_parameters name x ps there =
      let found : io.json.find name (io.of_parameters ps) ≡ some (io.of_string x) =
        ground (arith, faithful.parameters_find name ps, there) in
      ground (
        arith,
        faithful.typed.at_found name (io.of_parameters ps) (io.of_string x) found,
        faithful.string_read x,
      )

  -- What the client finds in an answer.
  pub string_of-state :
      (a : Answer) → string_of io.json "state" (io.of_answer a) ≡ some (state_text a.state)
  string_of-state a = ground (
    arith,
    faithful.typed.at_found "state" (io.of_answer a) (io.of_string (state_text a.state))
        (faithful.answer_state a),
    faithful.string_read (state_text a.state),
  )

  pub string_of-message :
      (a : Answer) → string_of io.json "message" (io.of_answer a) ≡ some a.message
  string_of-message a = ground (
    arith,
    faithful.typed.at_found "message" (io.of_answer a) (io.of_string a.message)
        (faithful.answer_message a),
    faithful.string_read a.message,
  )
