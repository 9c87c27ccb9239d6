-- ===== src/Tests/Runs.antt =====
-- Calls on the connections.
use qing_liao_chat_server.Base.{◌≢◌, ℕ, ◌≡◌, refl, arith, List, [], ◌∷◌}
use qing_liao_chat_server.Error.{err, undefined_behaviour}
use qing_liao_chat_server.Map.{lookup}
use qing_liao_chat_server.User
use qing_liao_chat_server.User.{User, DeviceType}
use qing_liao_chat_server.Server.{Server}
use qing_liao_chat_server.Server.Connections.{match_user_of_connection}
use qing_liao_chat_server.Server.Connections.Logins.{holds, logged_in}
use qing_liao_chat_server.Server.Connections.Runs.{
  Call, connects, disconnects, logs_in, perform, run, run-perform_lem,
}
use qing_liao_chat_server.Tests.Data.{online}
use qing_liao_chat_server.User.{new_user}

online_agrees : (d v : ℕ) → holds d v online ≡ logged_in d v online
unfolding lookup new_user User.has_connection match_user_of_connection
online_agrees d v = ground arith

run-perform_lem_example :
    let cs : List Call = (connects 5 ∷ logs_in 5 2 DeviceType.web ∷ disconnects 9 ∷ []) in
    let d : ℕ = 5 in
    let v : ℕ = 2 in
    let call : Call = (disconnects 5) in
    let s : Server = online in
    (holds d v (run cs s) ≡ logged_in d v (run cs s))
    × ((perform call (run cs s)).0 ≢ err undefined_behaviour)
unfolding lookup new_user
run-perform_lem_example =
    run-perform_lem (connects 5 ∷ logs_in 5 2 DeviceType.web ∷ disconnects 9 ∷ []) 5 2
      (disconnects 5) online online_agrees refl
