-- ===== src/Server/Dispatch/Guests.antt =====
-- What a connection without a login can do (server/jsonMessageProcess/JsonMsgProcess.cpp
-- `processJsonMessage`, with the commands of JsonMsgProcessCommand.cpp).
use qing_liao_chat_server.Base.{
  ℕ, String, ◌≡◌, refl, subst, sym, ap, ◌∙◌, Bool, true, false, not, none, some, arith, ◌⊎◌, inl,
  inr, Option-cases,
}
use qing_liao_chat_server.Error.{Result, ok, err, Result-cases, catch_all, pure}
use qing_liao_chat_server.Map.{lookup, id_key, string_key}
use qing_liao_chat_server.Json.{Json, Answer, int_of, is_error, make_message, make_error_message}
use qing_liao_chat_server.Server.{no_user}
use qing_liao_chat_server.Server.Manager.{has_user}
use qing_liao_chat_server.Server.Login.{Session}
use qing_liao_chat_server.Server.Commands.{get_option, get_command, new_command_list, has_command}
use qing_liao_chat_server.Server.Commands.Names.{function_name, get_command_lem}
use qing_liao_chat_server.Server.Commands.Users.{World}
use qing_liao_chat_server.Server.Dispatch.{
  Request, invalid, request, gate, read_request, check_options, invoke, process_request,
  process_json_message,
}
use qing_liao_chat_server.Server.Dispatch.Refusals.{
  refuses, opens, told, execute-guest, check_options-error,
}

-- What a message may be, other than one to log in or to register.
abbrev is_refusal : {J : Type 0} → Request J → Bool
is_refusal (invalid a) = is_error a
is_refusal (request name j) = not (opens name)

-- What a guest gets for a request: an error or an exception, or the answer to the question for a
-- user.
abbrev GuestResult : {J : Type 0} → Json J → Request J → Session → Result Answer → Type 0
GuestResult {J} json q s r =
    (refuses r ≡ true)
    ⊎ ((j : J) × (id : ℕ) × (q ≡ request "has_user" j)
        × (int_of json "user_id" j ≡ some id)
        × (r ≡ ok (told (has_user id s.server))))

process_request-guest :
    {J : Type 0} (json : Json J) (world : World) (c : ℕ) (q : Request J) (s : Session)
    → s.user_id ≡ no_user
    → lookup no_user s.server.users ≡ none
    → is_refusal q ≡ true
    → let (r, t) = process_request json world c q s in (t ≡ s) × GuestResult json q s r
unfolding process_request invoke gate has_command get_command make_error_message make_message
process_request-guest json world c (invalid a) s guest gone other =
    (refl, inl (ground (arith, other)))
process_request-guest json world c (request name j) s guest gone other =
    elim (Option-cases (lookup name new_command_list)) [
      | inl unknown ↦
          (ground (arith, guest, other, unknown), inl (ground (arith, guest, other, unknown)))
      | inr (command, found) ↦
          let named : name ≡ function_name command =
            (get_command_lem name command).0 (ground (arith, found)) in
          let allowed : opens name ≡ false = ground (arith, other) in
          let (same, run) =
            execute-guest json world no_user command j s.server gone
              (ap opens (sym named) ∙ allowed) in
          elim (Option-cases (check_options json j (get_option command))) [
            | inr (a, lost) ↦
                let error = check_options-error json j (get_option command) a lost in
                (
                  ground (arith, guest, allowed, found, lost),
                  inl (ground (arith, guest, allowed, found, lost, error)),
                )
            | inl typed ↦ (
              ground (arith, guest, allowed, found, typed, same),
              elim run [
                | inl refused ↦ inl (ground (arith, guest, allowed, found, typed, refused))
                | inr (asks, id, at_id, said) ↦ inr (
                  j,
                  id,
                  ap (λ n. request n j) (named ∙ ap function_name asks),
                  at_id,
                  ground (arith, guest, allowed, found, typed, said),
                )
              ],
            )
          ]
    ]

-- The reading of a body changes nothing, and what it refuses gets an error for an answer.
abbrev pub is_read : {J : Type 0} → Result (Request J) → Bool
is_read (ok (invalid a)) = is_error a
is_read (ok (request name j)) = true
is_read (err failure) = refuses (err failure)

pub read_request-is_read :
    {J S : Type 0} (json : Json J) (body : J) (s : S)
    → let (r, t) = read_request json body s in (t ≡ s) × (is_read r ≡ true)
unfolding read_request make_error_message make_message
read_request-is_read json body s = (ground arith, ground arith)

read-is_refusal :
    {J : Type 0} (q : Request J)
    → is_read (ok q) ≡ true
    → ((name : String) (j : J) → q ≡ request name j → opens name ≡ false)
    → is_refusal q ≡ true
read-is_refusal (invalid a) read closed = read
read-is_refusal (request name j) read closed = ground (arith, closed name j refl)

-- An answer after `catch`.
caught :
    (r : Result Answer) (s t : Session)
    → refuses r ≡ true
    → t ≡ s
    → (a : Answer) × (catch_all (λ _. (r, t)) (pure (make_error_message "Unknown error occured!")) s
        ≡ (ok a, s))
      × (is_error a ≡ true)
unfolding make_error_message make_message
caught (ok a) s t refused same = (a, ground (arith, same), refused)
caught (err f) s t refused same =
    (make_error_message "Unknown error occured!", ground (arith, same, refused), ground arith)

-- On a connection without a login, where nobody has the id that stands for no user: a message that
-- asks neither to log in nor to register leaves the session and the whole server as they are,
-- whatever it says, and it is answered: with an error, or, if it asks for a user by an id, with
-- whether there is this user.
pub guest_lem :
    {J : Type 0} (json : Json J) (world : World) (c : ℕ) (body : J) (s : Session)
    → s.user_id ≡ no_user
    → lookup no_user s.server.users ≡ none
    → ((name : String) (j : J)
        → (read_request json body s).0 ≡ ok (request name j)
        → opens name ≡ false)
    → (a : Answer) × (process_json_message json world c body s ≡ (ok a, s))
      × ((is_error a ≡ true)
          ⊎ ((j : J) × (id : ℕ) × ((read_request json body s).0 ≡ ok (request "has_user" j))
              × (int_of json "user_id" j ≡ some id)
              × (a ≡ told (has_user id s.server))))
unfolding process_json_message
guest_lem json world c body s guest gone closed =
    let (same, read) = read_request-is_read json body s in
    elim (Result-cases (read_request json body s).0) [
      | inr (e, thrown) ↦
          let (a, answered, error) =
            caught (err e) s s (subst (λ r. is_read r ≡ true) thrown read) refl in
          (a, ground (arith, same, thrown, answered), inl error)
      | inl (q, got) ↦
          let other =
            read-is_refusal q (subst (λ r. is_read r ≡ true) got read)
              (λ name j asked. closed name j (got ∙ ap ok asked)) in
          let (kept, run) = process_request-guest json world c q s guest gone other in
          elim run [
            | inl refused ↦
                let (r, t) = process_request json world c q s in
                let (a, answered, error) = caught r s t refused kept in
                (a, ground (arith, same, got, answered), inl error)
            | inr (j, id, asked, at_id, said) ↦ (
              told (has_user id s.server),
              ground (arith, same, got, kept, said),
              inr (j, id, got ∙ ap ok asked, at_id, refl),
            )
          ]
    ]
