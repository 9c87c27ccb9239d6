-- ===== src/Server/Dispatch/Replies.antt =====
-- The packages that answer packages (server/socketFunctions/socketFunctions.cpp
-- `SocketService::process`).
use qing_liao_chat_server.Base.{
  ℕ, ◌≡◌, ◌+◌, ◌<◌, ◌^◌, refl, arith, ◌==◌, if◌then◌else◌, length, Bool-cases, inl, inr,
}
use qing_liao_chat_server.Error.{Action, ok, ◌>>=◌}
use qing_liao_chat_server.Json.{Json, Answer, make_error_message, or_throw}
use qing_liao_chat_server.Wire.Endian.{Bytes}
use qing_liao_chat_server.Wire.DataPackage.{
  DataPackage, make_package, text_type, header_size, string_to_package, get_data,
}
use qing_liao_chat_server.Wire.DataPackage.RoundTrip.{string_to_package-package_to_string}
use qing_liao_chat_server.Server.{no_user}
use qing_liao_chat_server.Server.Login.{Session}
use qing_liao_chat_server.Server.Commands.Users.{World}
use qing_liao_chat_server.Server.Dispatch.{process_json_message, process}

-- The answer to a package: only one of type text is a message.
abbrev pub answer_to :
    {J : Type 0} → Json J → World → ℕ → Bytes → DataPackage → Action Session Answer
answer_to json world c bytes pack =
    if pack.type == text_type
    then or_throw (json.to_json bytes) >>= process_json_message json world c
    else (λ s. (
      ok (
          make_error_message
            (if s.user_id == no_user then "You haven't logged in!" else "Error type")),
      s,
    ))

-- A package with an answer is answered by one package of type text under the same request id, whose
-- data is the text of the answer; who receives the bytes can read all this from them. The session is
-- as the message leaves it.
pub string_to_package-process :
    {J : Type 0} (json : Json J) (world : World) (text : Answer → Bytes) (c : ℕ) (bytes : Bytes)
    (pack : DataPackage) (a : Answer) (s t : Session)
    → answer_to json world c bytes pack s ≡ (ok a, t)
    → header_size + length (text a) < 256 ^ 4
    → pack.request_id < 256 ^ 8
    → let p = make_package (text a) text_type 1 0 pack.request_id in
      (wire : Bytes) × (process json world text c bytes pack s ≡ (ok wire, t))
      × (string_to_package wire ≡ ok p)
      × (p.type ≡ text_type)
      × (p.request_id ≡ pack.request_id)
      × (get_data p ≡ ok (text a))
unfolding process make_package
string_to_package-process json world text c bytes pack a s t answered small id_fits =
    let (wire, out, back, whole) =
      string_to_package-package_to_string (text a) text_type 1 0 pack.request_id small (omega arith)
        (omega arith) (omega arith) id_fits in
    (
      wire,
      elim (Bool-cases (pack.type == text_type)) [
        | inl is_text ↦ ground (arith, answered, is_text, out)
        | inr differs ↦ ground (arith, answered, differs, out)
      ],
      back,
      refl,
      refl,
      whole,
    )
