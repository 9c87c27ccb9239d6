-- ===== src/Tests/Login.antt =====
-- A login on a connection that another user has.
use qing_liao_chat_server.Base.{ℕ, String, ◌≡◌, arith, ◌==◌, ◌&&◌, if◌then◌else◌}
use qing_liao_chat_server.Error.{ok}
use qing_liao_chat_server.Map.{lookup}
use qing_liao_chat_server.Server.{no_user}
use qing_liao_chat_server.Server.Connections.{has_connection}
use qing_liao_chat_server.Server.Connections.Logins.{holds, logged_in}
use qing_liao_chat_server.Server.Login.{Session, login}
use qing_liao_chat_server.Server.Login.Sessions.{knows, login_lem}
use qing_liao_chat_server.Tests.Data.{online, plain_hash}
use qing_liao_chat_server.User.{new_user}
use qing_liao_chat_server.Base.{refl}
use qing_liao_chat_server.User
use qing_liao_chat_server.Server.Connections.{match_user_of_connection}

online_agrees : (d v : ℕ) → holds d v online ≡ logged_in d v online
unfolding lookup new_user User.has_connection match_user_of_connection
online_agrees d v = ground arith

login_lem_example :
    let hash : String → String → String = plain_hash in
    let c : ℕ = 9 in
    let id : ℕ = 2 in
    let d : ℕ = 9 in
    let v : ℕ = 2 in
    let password : String = "" in
    let device : String = "Phone" in
    let s : Session = (record { user_id = no_user; server = online }) in
    let (r, t) = login hash c id password device s in
    let granted = knows hash id password s.server in
    (r ≡ ok granted)
    × (t.user_id ≡ (if granted then id else s.user_id))
    × (logged_in d v t.server ≡ (if granted && c == d then id == v else logged_in d v s.server))
    × (holds d v t.server ≡ logged_in d v t.server)
unfolding lookup new_user has_connection
login_lem_example =
    login_lem plain_hash 9 2 9 2 "" "Phone" (record { user_id = no_user; server = online })
      online_agrees refl refl
