-- ===== src/Server/Connections/Logins.antt =====
-- The manager's table of connections and the users' own tables agree (server/manager/manager.cpp
-- `registerConnection`, `modifyUserOfConnection`, `removeConnection`).
use qing_liao_chat_server.Base.{
  ℕ, ◌≡◌, Bool, false, some, none, arith, ◌==◌, ◌&&◌, not, if◌then◌else◌, is_some, inl, inr,
  Bool-cases, Option-cases, ==_iff, ap, sym, ◌∙◌,
}
use qing_liao_chat_server.Error.{ok, throw, user_not_existed, socket_pointer_not_existed}
use qing_liao_chat_server.Map.{lookup, insert, erase, id_key, lookup-insert, lookup-erase}
use qing_liao_chat_server.User
use qing_liao_chat_server.User.{User, DeviceType}
use qing_liao_chat_server.Server.{Server, no_user}
use qing_liao_chat_server.Server.Connections.{
  has_connection, match_user_of_connection, modify_user_of_connection, remove_connection, at_user,
}

-- Whether the user `id` has the connection `c` in its own table.
abbrev pub holds : ℕ → ℕ → Server → Bool
holds c id s = elim (lookup id s.users) [ none ↦ false | some u ↦ User.has_connection c u ]

-- Whether the manager has `id` logged in on `c`.
abbrev pub logged_in : ℕ → ℕ → Server → Bool
logged_in c id s = match_user_of_connection c id s && not (id == no_user)

-- Taking the connection `c` out of the user that is logged in on it.
abbrev released : ℕ → ℕ → User → Server → Server
released c old u s = record s {
  users = insert old (record u { connection_map = erase c u.connection_map }) s.users;
}

-- Before a log-out, a login under another name included.
pub release : ℕ → ℕ → Server → Server
release c old s = elim (lookup old s.users) [
  | none ↦ s
  | some u ↦ if old == no_user then s else released c old u s
]

release_lem :
    (c old : ℕ) (s : Server)
    → ((d v : ℕ) → holds d v s ≡ logged_in d v s)
    → lookup c s.connection_map ≡ some old
    → (if old == no_user then (λ t. (ok tt, t)) else at_user old (User.remove_connection c)) s
      ≡ (ok tt, release c old s)
unfolding release at_user User.remove_connection match_user_of_connection User.has_connection
release_lem c old s agree there = ground (arith, agree c old, there)

pub holds-release :
    (c old d v : ℕ) (s : Server)
    → ((d' v' : ℕ) → holds d' v' s ≡ logged_in d' v' s)
    → lookup c s.connection_map ≡ some old
    → holds d v (release c old s) ≡ (not (c == d) && holds d v s)
unfolding release match_user_of_connection User.has_connection
holds-release c old d v s agree there = elim (Option-cases (lookup old s.users)) [
  | inl gone ↦ elim (Bool-cases (c == d)) [
    | inl same ↦ ground (arith, gone, agree c v, ap (λ x. holds x v s) ((==_iff c d).0 same), there)
    | inr other ↦ ground (arith, gone)
  ]
  | inr (u, at_old) ↦
      let u' : User = record u { connection_map = erase c u.connection_map } in
      let found = lookup-insert v old u' s.users in
      let erased = lookup-erase d c u.connection_map in
      elim (Bool-cases (old == v)) [
        | inl is_old ↦
            let at_v : lookup v s.users ≡ some u =
              ap (λ x. lookup x s.users) (sym ((==_iff old v).0 is_old)) ∙ at_old in
            elim (Bool-cases (c == d)) [
              | inl same ↦ ground (
                arith,
                at_old,
                at_v,
                found,
                erased,
                agree c v,
                there,
                ap (λ x. holds x v s) ((==_iff c d).0 same),
              )
              | inr other ↦ ground (arith, at_old, at_v, found, erased)
            ]
        | inr not_old ↦ elim (Bool-cases (c == d)) [
          | inl same ↦
              ground (
                arith,
                at_old,
                found,
                agree c v,
                there,
                ap (λ x. holds x v s) ((==_iff c d).0 same),
              )
          | inr other ↦ ground (arith, at_old, found)
        ]
      ]
]

pub release-frame :
    (c old v : ℕ) (s : Server)
    → ((release c old s).connection_map ≡ s.connection_map)
      × (is_some (lookup v (release c old s).users) ≡ is_some (lookup v s.users))
unfolding release
release-frame c old v s = elim (Option-cases (lookup old s.users)) [
  | inl gone ↦ (ground (arith, gone), ground (arith, gone))
  | inr (u, at_old) ↦
      let u' : User = record u { connection_map = erase c u.connection_map } in
      (
        ground (arith, at_old),
        ground (
          arith,
          at_old,
          lookup-insert v old u' s.users,
          λ (e : old ≡ v). ap (λ x. lookup x s.users) e,
        ),
      )
]

pub remove_connection-known :
    (c old : ℕ) (s : Server)
    → ((d v : ℕ) → holds d v s ≡ logged_in d v s)
    → lookup c s.connection_map ≡ some old
    → remove_connection c s ≡ (
      ok tt,
      record (release c old s) { connection_map = erase c (release c old s).connection_map },
    )
unfolding remove_connection
remove_connection-known c old s agree there = ground (arith, there, release_lem c old s agree there)

pub remove_connection-unknown :
    (c : ℕ) (s : Server)
    → lookup c s.connection_map ≡ none
    → remove_connection c s ≡ (throw socket_pointer_not_existed, s)
unfolding remove_connection
remove_connection-unknown c s gone = ground (arith, gone)

-- Where the two kinds of tables agree, a connection that goes away is taken out of both, and out of
-- nothing else: the call returns, or throws for a connection that is not there, and the tables agree
-- afterwards.
pub remove_connection_lem :
    (c d v : ℕ) (s : Server)
    → ((d' v' : ℕ) → holds d' v' s ≡ logged_in d' v' s)
    → let (r, t) = remove_connection c s in
      (r ≡ (if has_connection c s then ok tt else throw socket_pointer_not_existed))
      × (has_connection d t ≡ (not (c == d) && has_connection d s))
      × (holds d v t ≡ (not (c == d) && holds d v s))
      × (holds d v t ≡ logged_in d v t)
unfolding has_connection match_user_of_connection
remove_connection_lem c d v s agree = elim (Option-cases (lookup c s.connection_map)) [
  | inl gone ↦
      let same = remove_connection-unknown c s gone in
      let at_d = λ (e : c ≡ d). sym (ap (λ x. lookup x s.connection_map) e) ∙ gone in
      (
        ground (arith, gone, same),
        ground (arith, same, at_d),
        ground (arith, same, at_d, agree d v),
        ground (arith, same, agree d v),
      )
  | inr (old, there) ↦
      let run = remove_connection-known c old s agree there in
      let erased = lookup-erase d c s.connection_map in
      let frame = release-frame c old v s in
      let held = holds-release c old d v s agree there in
      (
        ground (arith, there, run),
        ground (arith, run, erased, frame),
        ground (arith, run, held),
        ground (arith, run, erased, frame, held, agree d v),
      )
]

-- The server where `id` has logged in on `c`, on which nobody is.
abbrev pub joined : (c id : ℕ) (type : DeviceType) (u : User) → Server → Server
joined c id type u t = record t {
  users = insert id (record u { connection_map = insert c type u.connection_map }) t.users;
  connection_map = insert c id t.connection_map;
}

pub modify_user_of_connection-known :
    (c id old : ℕ) (type : DeviceType) (u : User) (s : Server)
    → ((d v : ℕ) → holds d v s ≡ logged_in d v s)
    → lookup c s.connection_map ≡ some old
    → lookup id (release c old s).users ≡ some u
    → modify_user_of_connection c id type s ≡ (ok tt, joined c id type u (release c old s))
unfolding modify_user_of_connection at_user User.add_connection User.has_connection
modify_user_of_connection-known c id old type u s agree there at_id = ground (
  arith,
  there,
  at_id,
  release_lem c old s agree there,
  release-frame c old id s,
  holds-release c old c id s agree there,
)

pub modify_user_of_connection-refused :
    (c id : ℕ) (type : DeviceType) (s : Server)
    → (is_some (lookup id s.users) && has_connection c s) ≡ false
    → modify_user_of_connection c id type s ≡ (
      if is_some (lookup id s.users)
          then throw socket_pointer_not_existed
          else throw user_not_existed,
      s,
    )
unfolding modify_user_of_connection has_connection
modify_user_of_connection-refused c id type s refused = ground (arith, refused)
