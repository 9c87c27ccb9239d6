-- ===== src/Server/Connections/Sessions.antt =====
-- Logging in on a connection, and any sequence of calls on the connections
-- (server/manager/manager.cpp).
use qing_liao_chat_server.Base.{
  ℕ, ◌≡◌, false, arith, ◌==◌, ◌||◌, ◌&&◌, if◌then◌else◌, is_some, inl, inr, Bool-cases,
  Option-cases, ap, sym, ◌∙◌,
}
use qing_liao_chat_server.Error.{
  ok, throw, user_not_existed, socket_pointer_existed, socket_pointer_not_existed,
}
use qing_liao_chat_server.Map.{lookup, insert, id_key, lookup-insert}
use qing_liao_chat_server.User
use qing_liao_chat_server.User.{User, DeviceType}
use qing_liao_chat_server.Server.{Server, no_user}
use qing_liao_chat_server.Server.Connections.{
  register_connection, has_connection, match_user_of_connection, modify_user_of_connection,
}
use qing_liao_chat_server.Server.Connections.Logins.{
  holds, logged_in, release, holds-release, release-frame, modify_user_of_connection-known,
  modify_user_of_connection-refused,
}

-- Logging in on a registered connection as a known user returns, also where somebody was logged in on
-- it before: from then on exactly this user has the connection, nobody else's connections change, and
-- the tables of the manager and of the users agree again. For an unknown user or connection the call
-- throws and changes nothing.
pub modify_user_of_connection_lem :
    (c id d v : ℕ) (type : DeviceType) (s : Server)
    → ((d' v' : ℕ) → holds d' v' s ≡ logged_in d' v' s)
    → is_some (lookup no_user s.users) ≡ false
    → let (r, t) = modify_user_of_connection c id type s in
      let granted = is_some (lookup id s.users) && has_connection c s in
      (r ≡ (
        if granted
        then ok tt
        else if is_some (lookup id s.users)
        then throw socket_pointer_not_existed
        else throw user_not_existed))
      × (has_connection d t ≡ has_connection d s)
      × (logged_in d v t ≡ (if granted && c == d then id == v else logged_in d v s))
      × (holds d v t ≡ logged_in d v t)
unfolding has_connection match_user_of_connection User.has_connection
modify_user_of_connection_lem c id d v type s agree nobody =
    elim (Bool-cases (is_some (lookup id s.users) && has_connection c s)) [
      | inr refused ↦
          let same = modify_user_of_connection-refused c id type s refused in
          (
            ground (arith, refused, same),
            ground (arith, refused, same),
            ground (arith, refused, same),
            ground (arith, refused, same, agree d v),
          )
      | inl granted ↦ elim (Option-cases (lookup c s.connection_map)) [
        | inl gone ↦ absurd (ground (arith, gone))
        | inr (old, there) ↦ elim (Option-cases (lookup id (release c old s).users)) [
          | inl gone ↦ absurd (ground (arith, gone, release-frame c old id s))
          | inr (u, at_id) ↦
              let run = modify_user_of_connection-known c id old type u s agree there at_id in
              let found = lookup-insert d c id s.connection_map in
              let frame = release-frame c old v s in
              let is_user : (id == no_user) ≡ false = ground (
                arith,
                granted,
                λ (e : id ≡ no_user). ap (λ x. is_some (lookup x s.users)) e ∙ nobody,
              ) in
              (
                ground (arith, granted, run),
                ground (arith, granted, run, found, frame),
                ground (arith, granted, run, found, frame, is_user),
                ground (
                  arith,
                  run,
                  found,
                  frame,
                  is_user,
                  agree d v,
                  holds-release c old d v s agree there,
                  lookup-insert v id (record u { connection_map = insert c type u.connection_map })
                      (release c old s).users,
                  lookup-insert d c type u.connection_map,
                  λ (e : id ≡ v). sym (ap (λ x. lookup x (release c old s).users) e) ∙ at_id,
                ),
              )
        ]
      ]
    ]

-- A new connection is registered with nobody logged in on it; an old one is refused.
pub register_connection_lem :
    (c d v : ℕ) (s : Server)
    → ((d' v' : ℕ) → holds d' v' s ≡ logged_in d' v' s)
    → let (r, t) = register_connection c s in
      (r ≡ (if has_connection c s then throw socket_pointer_existed else ok tt))
      × (has_connection d t ≡ (c == d || has_connection d s))
      × (holds d v t ≡ logged_in d v t)
      × (t.users ≡ s.users)
unfolding register_connection has_connection match_user_of_connection
register_connection_lem c d v s agree = elim (Bool-cases (is_some (lookup c s.connection_map))) [
  | inl there ↦ (
    ground (arith, there),
    ground (
      arith,
      there,
      λ (e : c ≡ d). sym (ap (λ x. is_some (lookup x s.connection_map)) e) ∙ there,
    ),
    ground (arith, there, agree d v),
    ground (arith, there),
  )
  | inr new ↦
      let found = lookup-insert d c no_user s.connection_map in
      (
        ground (arith, new),
        ground (arith, new, found),
        ground (
          arith,
          new,
          found,
          agree d v,
          λ (e : c ≡ d). sym (ap (λ x. is_some (lookup x s.connection_map)) e) ∙ new,
        ),
        ground (arith, new),
      )
]
