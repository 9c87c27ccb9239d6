-- ===== src/Server/Connections/Runs.antt =====
-- Any sequence of calls on the connections (server/manager/manager.cpp).
use qing_liao_chat_server.Base.{
  ◌≢◌, ℕ, ◌≡◌, false, arith, ◌&&◌, is_some, inl, inr, Bool-cases, Option-cases, ap, sym, ◌∙◌, List,
  [], ◌∷◌,
}
use qing_liao_chat_server.Error.{Result, err, undefined_behaviour}
use qing_liao_chat_server.Map.{lookup, insert, id_key, lookup-insert}
use qing_liao_chat_server.User.{DeviceType}
use qing_liao_chat_server.Server.{Server, no_user}
use qing_liao_chat_server.Server.Connections.{
  register_connection, has_connection, modify_user_of_connection, remove_connection,
}
use qing_liao_chat_server.Server.Connections.Logins.{
  holds, logged_in, release, release-frame, modify_user_of_connection-known,
  modify_user_of_connection-refused, remove_connection_lem, remove_connection-known,
  remove_connection-unknown,
}
use qing_liao_chat_server.Server.Connections.Sessions.{
  modify_user_of_connection_lem, register_connection_lem,
}

-- The calls, as the network and the login make them.
pub data Call : Type 0 where
  connects : (c : ℕ) → Call
  logs_in : (c id : ℕ) (type : DeviceType) → Call
  disconnects : (c : ℕ) → Call

pub perform : Call → Server → Result (Unit {0}) × Server
perform (connects c) s = register_connection c s
perform (logs_in c id type) s = modify_user_of_connection c id type s
perform (disconnects c) s = remove_connection c s

pub run : List Call → Server → Server
run [] s = s
run (c ∷ cs) s = run cs (perform c s).1

has_user-modify_user_of_connection :
    (c id v : ℕ) (type : DeviceType) (s : Server)
    → ((d' v' : ℕ) → holds d' v' s ≡ logged_in d' v' s)
    → is_some (lookup v (modify_user_of_connection c id type s).1.users)
      ≡ is_some (lookup v s.users)
unfolding has_connection
has_user-modify_user_of_connection c id v type s agree =
    elim (Bool-cases (is_some (lookup id s.users) && has_connection c s)) [
      | inr refused ↦ ground (arith, modify_user_of_connection-refused c id type s refused)
      | inl granted ↦ elim (Option-cases (lookup c s.connection_map)) [
        | inl gone ↦ absurd (ground (arith, gone))
        | inr (old, there) ↦ elim (Option-cases (lookup id (release c old s).users)) [
          | inl gone ↦ absurd (ground (arith, gone, release-frame c old id s))
          | inr (u, at_id) ↦ ground (
            arith,
            modify_user_of_connection-known c id old type u s agree there at_id,
            release-frame c old v s,
            lookup-insert v id (record u { connection_map = insert c type u.connection_map })
                (release c old s).users,
            λ (e : id ≡ v). sym (ap (λ x. lookup x (release c old s).users) e) ∙ at_id,
          )
        ]
      ]
    ]

has_user-remove_connection :
    (c v : ℕ) (s : Server)
    → ((d' v' : ℕ) → holds d' v' s ≡ logged_in d' v' s)
    → is_some (lookup v (remove_connection c s).1.users) ≡ is_some (lookup v s.users)
has_user-remove_connection c v s agree = elim (Option-cases (lookup c s.connection_map)) [
  | inl gone ↦ ground (arith, remove_connection-unknown c s gone)
  | inr (old, there) ↦
      ground (arith, remove_connection-known c old s agree there, release-frame c old v s)
]

-- The agreement of the tables, and that no user has the id that stands for nobody.
abbrev Agreed : Server → Type 0
Agreed s = ((d v : ℕ) → holds d v s ≡ logged_in d v s) × (is_some (lookup no_user s.users) ≡ false)

perform-Agreed : (c : Call) (s : Server) → Agreed s → Agreed (perform c s).1
unfolding perform
perform-Agreed (connects c) s (agree, nobody) = (
  λ d v. ground (arith, register_connection_lem c d v s agree),
  ground (arith, nobody, register_connection_lem c c c s agree),
)
perform-Agreed (logs_in c id type) s (agree, nobody) = (
  λ d v. ground (arith, modify_user_of_connection_lem c id d v type s agree nobody),
  has_user-modify_user_of_connection c id no_user type s agree ∙ nobody,
)
perform-Agreed (disconnects c) s (agree, nobody) = (
  λ d v. ground (arith, remove_connection_lem c d v s agree),
  has_user-remove_connection c no_user s agree ∙ nobody,
)

run-Agreed : (cs : List Call) (s : Server) → Agreed s → Agreed (run cs s)
unfolding run
run-Agreed [] s h = h
run-Agreed (c ∷ cs) s h = run-Agreed cs (perform c s).1 (perform-Agreed c s h)

perform-defined : (c : Call) (s : Server) → Agreed s → (perform c s).0 ≢ err undefined_behaviour
unfolding perform
perform-defined (connects c) s (agree, nobody) =
    ground (arith, register_connection_lem c c c s agree)
perform-defined (logs_in c id type) s (agree, nobody) =
    ground (arith, modify_user_of_connection_lem c id c id type s agree nobody)
perform-defined (disconnects c) s (agree, nobody) =
    ground (arith, remove_connection_lem c c c s agree)

-- Where no user has the id that stands for nobody and the tables agree, they agree after any sequence
-- of calls on the connections, and no call after that is undefined behaviour: the iterators that
-- `modifyUserOfConnection` and `removeConnection` do not test always stand on a user.
pub run-perform_lem :
    (cs : List Call) (d v : ℕ) (call : Call) (s : Server)
    → ((d' v' : ℕ) → holds d' v' s ≡ logged_in d' v' s)
    → is_some (lookup no_user s.users) ≡ false
    → (holds d v (run cs s) ≡ logged_in d v (run cs s))
      × ((perform call (run cs s)).0 ≢ err undefined_behaviour)
run-perform_lem cs d v call s agree nobody =
    let agreed = run-Agreed cs s (agree, nobody) in
    (agreed.0 d v, perform-defined call (run cs s) agreed)
