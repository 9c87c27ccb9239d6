-- ===== src/Tests/ClientCalls.antt =====
-- The test client with the server.
use qing_liao_chat_server.Base.{
  ℕ, String, ◌≡◌, refl, Bool, true, false, not, List, All, [], ◌∷◌, ◌++◌, map, arith, ◌==◌, ◌&&◌,
  ◌||◌, if◌then◌else◌,
}
use qing_liao_chat_server.Error.{ok, pure, catch_all}
use qing_liao_chat_server.Map.{lookup, insert, contains, id_key, string_key}
use qing_liao_chat_server.Text.{Text, codes, space, equals_sign}
use qing_liao_chat_server.Text.Words.{IsWord, join}
use qing_liao_chat_server.User
use qing_liao_chat_server.User.{new_user}
use qing_liao_chat_server.Wire.DataPackage.{
  memory, string_to_package, load, swap_fields, package_to_string,
}
use qing_liao_chat_server.Wire.Endian.{swap_endianness}
use qing_liao_chat_server.Server.{no_user}
use qing_liao_chat_server.Server.Manager.{has_user}
use qing_liao_chat_server.Server.Friends
use qing_liao_chat_server.Server.Friends.Requests.{may_ask}
use qing_liao_chat_server.Server.Connections.{has_connection, match_user_of_connection}
use qing_liao_chat_server.Server.Connections.Logins.{holds, logged_in}
use qing_liao_chat_server.Server.Login.{Session}
use qing_liao_chat_server.Server.Login.Sessions.{knows}
use qing_liao_chat_server.Options.{add, missing, get_type}
use qing_liao_chat_server.Options.Rendering.{render}
use qing_liao_chat_server.Client.{Client, login_user, create_friend_application}
use qing_liao_chat_server.Client.Transport.{ask_server}
use qing_liao_chat_server.Client.Agreement.{login_user_lem}
use qing_liao_chat_server.Client.Requests.{create_friend_application_lem}
use qing_liao_chat_server.Client.Network.{
  Network, send_request, send_data, call_received_stdstring, digit, show_binary_data,
}
use qing_liao_chat_server.Client.Network.Answers.{call_received_stdstring-send_request}
use qing_liao_chat_server.Client.Network.Hex.{show_binary_data-high_byte}
use qing_liao_chat_server.Client.Commands.{
  login_user_command, get_option, get_command, new_command_manager, add_command, execute, run_line,
  thrown,
}
use qing_liao_chat_server.Client.Commands.Lines.{with_settings, run_line-join}
use qing_liao_chat_server.Tests.Data.{two, online, one_package, wire}
use qing_liao_chat_server.Tests.JsonData.{plain, plain_json, plain-IsFaithful, today}

abbrev fresh_client : Client Session
fresh_client = record {
  user_id = 0;
  has_login = false;
  outside = record { user_id = no_user; server = online };
}

online_agrees : (d v : ℕ) → holds d v online ≡ logged_in d v online
unfolding lookup new_user User.has_connection match_user_of_connection
online_agrees d v = ground arith

login_user_lem_example :
    let (r, t) = login_user plain_json (ask_server plain today 8) 2 "" fresh_client in
    let granted = knows today.hash 2 "" online in
    (r ≡ ok granted)
    × (t.has_login ≡ (granted || false))
    × (t.user_id ≡ (if granted then 2 else 0))
    × (t.outside.user_id ≡ (if granted then 2 else no_user))
unfolding lookup new_user has_connection
login_user_lem_example =
    login_user_lem plain plain-IsFaithful today 8 2 "" fresh_client online_agrees refl refl

abbrev known_client : Client Session
known_client = record {
  user_id = 1;
  has_login = true;
  outside = record { user_id = 1; server = two };
}

create_friend_application_lem_example :
    let (r, t) = create_friend_application plain_json (ask_server plain today 8) 2 known_client in
    (r ≡ ok (true && may_ask 1 2 two))
    × (t.outside.server ≡ (if true then (Friends.add_friend 1 2 two).1 else two))
    × (t.outside.user_id ≡ 1)
    × (t.has_login ≡ true)
    × (t.user_id ≡ 1)
unfolding has_user lookup new_user
create_friend_application_lem_example =
    create_friend_application_lem plain plain-IsFaithful today 8 2 known_client refl

abbrev idle : Network String
idle = record {
  is_receiving = true;
  request_id_set = [];
  request_id_function_map = [];
  received_function_map = [];
  sent = [];
  called = [];
  broadcast = [];
}

abbrev waiting : Network String
waiting = (send_request one_package "reply" 77 idle).1

call_received_stdstring-send_request_example :
    let (r, u) = call_received_stdstring wire waiting in
    let (r', v) = call_received_stdstring wire u in
    (r ≡ ok tt)
    × (u.called ≡ idle.called ++ (("reply", one_package) ∷ []))
    × (u.broadcast ≡ idle.broadcast)
    × (contains 5 u.request_id_set ≡ contains 5 idle.request_id_set)
    × (lookup 5 u.request_id_function_map ≡ lookup 5 idle.request_id_function_map)
    × (v.called ≡ u.called)
unfolding send_request send_data package_to_string lookup insert memory string_to_package load
    swap_fields swap_endianness
call_received_stdstring-send_request_example =
    call_received_stdstring-send_request one_package one_package "reply" 5 wire idle waiting refl
      refl refl refl refl

show_binary_data-high_byte_example : show_binary_data (31 ∷ []) ≡ 92 ∷ 120 ∷ digit 15 ∷ digit 1 ∷ []
show_binary_data-high_byte_example =
    show_binary_data-high_byte 1 15 (omega arith) (omega arith) (omega arith) refl

abbrev login_settings : List (Text × Text)
login_settings = (codes "userid", codes "2") ∷ (codes "password", codes "x") ∷ []

abbrev no_words : Text → String
no_words text = ""

abbrev none_of : (ℕ → Bool) → Text → Bool
none_of f [] = true
none_of f (c ∷ text) = not (f c) && none_of f text

none_of-All : (f : ℕ → Bool) (text : Text) → none_of f text ≡ true → All (λ c. f c ≡ false) text
none_of-All f [] clear = tt
none_of-All f (c ∷ text) clear = (ground (arith, clear), none_of-All f text (ground (arith, clear)))

word : (c : ℕ) (w : Text) → none_of (λ d. d == space) (c ∷ w) ≡ true → IsWord (c ∷ w)
word c w spaceless =
    (λ empty. absurd (ground (arith, empty)), none_of-All (λ d. d == space) (c ∷ w) spaceless)

run_line-join_example :
    run_line plain_json
      (ask_server plain today 8)
      no_words
      new_command_manager
      (join (codes "loginUser" ∷ map render login_settings))
      fresh_client
    ≡ catch_all
        (execute plain_json
          (ask_server plain today 8)
          no_words
          new_command_manager
          login_user_command
          (with_settings login_user_command login_settings))
        (pure thrown)
        fresh_client
unfolding get_command get_option add add_command new_command_manager lookup insert missing get_type
run_line-join_example =
    run_line-join plain_json (ask_server plain today 8) no_words new_command_manager
      (codes "loginUser") login_user_command login_settings fresh_client
      (
        word 108 (codes "oginUser") refl,
        (word 45 (codes "-userid=2") refl, (word 45 (codes "-password=x") refl, tt)),
      )
      refl refl
      (
        (refl, none_of-All (λ c. c == equals_sign) (codes "userid") refl),
        ((refl, none_of-All (λ c. c == equals_sign) (codes "password") refl), tt),
      )
      refl
