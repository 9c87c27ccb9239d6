-- ===== src/Server/Quiet.antt =====
-- Calls of the server that leave the connections and the logins alone
-- (server/manager/manager.cpp, server/user/user.cpp): one rule for each way to build a call.
use qing_liao_chat_server.Base.{
  ℕ, ◌≡◌, refl, sym, ap, ◌∙◌, Bool, true, false, Option, none, some, List, [], ◌∷◌, arith, ◌==◌,
  if◌then◌else◌, inl, inr, Bool-cases, Option-cases, ==_iff, is_some,
}
use qing_liao_chat_server.Error.{
  Action, Result, ok, err, Failure, Errc, throw, pure, gets, modify, raise_if, or_raise, catch_all,
  ◌>>=◌, group_room_not_existed, system_error, logic_error, deadlock_error, undefined_behaviour,
  blocked,
}
use qing_liao_chat_server.Map.{lookup, insert, id_key, lookup-insert}
use qing_liao_chat_server.Room.{Notice, Delivery, Names, Sending}
use qing_liao_chat_server.User
use qing_liao_chat_server.User.{User}
use qing_liao_chat_server.Group.Room.{GroupRoom}
use qing_liao_chat_server.Server.{
  Server, Call, on_user, read_user, on_group, names, notify, notify_all, send_json_to_user,
}
use qing_liao_chat_server.Server.Connections.Logins.{holds}

-- Every user has the connections that it had, and every connection its user.
pub record SameLogins (s t : Server) : Type 0 where
  pub connections : t.connection_map ≡ s.connection_map
  pub users : (d v : ℕ) → holds d v t ≡ holds d v s

pub record IsQuiet {A : Type 0} (m : Call A) : Type 0 where
  pub at : (s : Server) → SameLogins s (m s).1

pub SameLogins-refl : (s : Server) → SameLogins s s
SameLogins-refl s = record { connections = refl; users = λ d v. refl }

pub SameLogins-trans : {r s t : Server} → SameLogins r s → SameLogins s t → SameLogins r t
SameLogins-trans a b = record {
  connections = b.connections ∙ a.connections;
  users = λ d v. b.users d v ∙ a.users d v;
}

module _ {A : Type 0} where
  pub IsQuiet-pure : (a : A) → IsQuiet (pure {S = Server} a)
  IsQuiet-pure a = record { at = SameLogins-refl }

  pub IsQuiet-gets : (f : Server → A) → IsQuiet (gets f)
  IsQuiet-gets f = record { at = SameLogins-refl }

  pub IsQuiet-or_raise : (o : Option A) (e : Errc) → IsQuiet (or_raise {S = Server} o e)
  IsQuiet-or_raise none e = record { at = SameLogins-refl }
  IsQuiet-or_raise (some a) e = record { at = SameLogins-refl }

  pub IsQuiet-if : (b : Bool) (m k : Call A) → IsQuiet m → IsQuiet k → IsQuiet (if b then m else k)
  IsQuiet-if true m k q r = q
  IsQuiet-if false m k q r = r

  pub IsQuiet-read_user : (id : ℕ) (f : User → A) → IsQuiet (read_user id f)
  unfolding read_user
  IsQuiet-read_user id f = record {
    at = λ s. record { connections = ground arith; users = λ d v. ground arith };
  }

  after_failure :
      (f : Failure) (h : Call A) (s t : Server)
      → SameLogins s t
      → IsQuiet h
      → SameLogins s
          (elim f as (λ _. Result A × Server) [
            | system_error e ↦ h t
            | logic_error ↦ h t
            | deadlock_error ↦ h t
            | undefined_behaviour ↦ (err undefined_behaviour, t)
            | blocked ↦ (err blocked, t)
          ]).1
  after_failure (system_error e) h s t same q = SameLogins-trans same (q.at t)
  after_failure logic_error h s t same q = SameLogins-trans same (q.at t)
  after_failure deadlock_error h s t same q = SameLogins-trans same (q.at t)
  after_failure undefined_behaviour h s t same q = same
  after_failure blocked h s t same q = same

  caught :
      (r : Result A) (h : Call A) (s t : Server)
      → SameLogins s t
      → IsQuiet h
      → SameLogins s (catch_all (λ _. (r, t)) h s).1
  caught (ok a) h s t same q = same
  caught (err f) h s t same q = after_failure f h s t same q

  pub IsQuiet-catch_all : (m h : Call A) → IsQuiet m → IsQuiet h → IsQuiet (catch_all m h)
  IsQuiet-catch_all m h q r = record { at = λ s. caught (m s).0 h s (m s).1 (q.at s) r }

  -- A method that leaves the user's own table of connections alone.
  pub IsQuiet-on_user :
      (id : ℕ) (m : Action User A)
      → ((u : User) → (m u).1.connection_map ≡ u.connection_map)
      → IsQuiet (on_user id m)
  unfolding on_user User.has_connection
  IsQuiet-on_user id m same = record {
    at = λ s. record {
      connections = ground arith;
      users = λ d v. elim (Option-cases (lookup id s.users)) [
        | inl gone ↦ ground (arith, gone)
        | inr (u, there) ↦ elim (Bool-cases (id == v)) [
          | inl is_v ↦
              let at_v = sym (ap (λ x. lookup x s.users) ((==_iff id v).0 is_v)) ∙ there in
              let changed = ap (λ c. is_some (lookup d c)) (same u) in
              ground (arith, there, at_v, lookup-insert v id (m u).1 s.users, is_v, changed)
          | inr other ↦ ground (arith, there, lookup-insert v id (m u).1 s.users, other)
        ]
      ];
    };
  }

pub IsQuiet-raise_if : (b : Bool) (e : Errc) → IsQuiet (raise_if {S = Server} b e)
IsQuiet-raise_if true e = record { at = SameLogins-refl }
IsQuiet-raise_if false e = record { at = SameLogins-refl }

SameLogins-notify : (d : Delivery) (s : Server) → SameLogins s (notify d s)
unfolding notify
SameLogins-notify (id, notice) s = record {
  connections = ground arith;
  users = λ d v. ground arith;
}

pub SameLogins-notify_all : (ds : List Delivery) (s : Server) → SameLogins s (notify_all ds s)
unfolding notify_all
SameLogins-notify_all [] s = SameLogins-refl s
SameLogins-notify_all (d ∷ ds) s =
    SameLogins-trans (SameLogins-notify d s) (SameLogins-notify_all ds (notify d s))

pub IsQuiet-send_json_to_user : (id : ℕ) (notice : Notice) → IsQuiet (send_json_to_user id notice)
unfolding send_json_to_user notify
IsQuiet-send_json_to_user id notice = record {
  at = λ s. record { connections = ground arith; users = λ d v. ground arith };
}

pub IsQuiet-modify :
    (f : Server → Server)
    → ((s : Server) → (f s).connection_map ≡ s.connection_map)
    → ((s : Server) → (f s).users ≡ s.users)
    → IsQuiet (modify f)
IsQuiet-modify f connections users = record {
  at = λ s. record { connections = connections s; users = λ d v. ground (arith, users s) };
}

module _ {A B : Type 0} where
  then_quiet :
      (r : Result A) (k : A → Call B) (s t : Server)
      → SameLogins s t
      → ((a : A) → IsQuiet (k a))
      → SameLogins s (elim r as (λ _. Result B × Server) [ ok a ↦ k a t | err e ↦ (err e, t) ]).1
  then_quiet (ok a) k s t same q = SameLogins-trans same ((q a).at t)
  then_quiet (err e) k s t same q = same

  pub IsQuiet-bind :
      (m : Call A) (k : A → Call B) → IsQuiet m → ((a : A) → IsQuiet (k a)) → IsQuiet (m >>= k)
  IsQuiet-bind m k q r = record { at = λ s. then_quiet (m s).0 k s (m s).1 (q.at s) r }

module _ {A : Type 0} where
  pub IsQuiet-on_group :
      (id : ℕ) (m : Names → Action (Sending GroupRoom) A) → IsQuiet (on_group id m)
  unfolding on_group
  IsQuiet-on_group id m = record {
    at = λ s.
        elim (lookup id s.group_rooms)
          as (λ o.
            SameLogins s
              (elim o as (λ _. Result A × Server) [
                | none ↦ (throw group_room_not_existed, s)
                | some room ↦
                    let (r, t) = m (names s) (record { room = room; sent = [] }) in
                    (
                      r,
                      notify_all t.sent (record s { group_rooms = insert id t.room s.group_rooms }),
                    )
              ]).1) [
                | none ↦ SameLogins-refl s
                | some room ↦
                    let t = (m (names s) (record { room = room; sent = [] })).1 in
                    let kept : Server = record s { group_rooms = insert id t.room s.group_rooms } in
                    let notified = SameLogins-notify_all t.sent kept in
                    record { connections = notified.connections; users = notified.users }
              ];
  }

pub IsQuiet-update_user :
    (id : ℕ) (f : User → User)
    → ((u : User) → (f u).connection_map ≡ u.connection_map)
    → IsQuiet (on_user {A = Unit {0}} id (λ u. (ok tt, f u)))
IsQuiet-update_user id f same = IsQuiet-on_user id (λ u. (ok tt, f u)) same

pub ruleset quiet_rules = (
  IsQuiet-pure, IsQuiet-gets, IsQuiet-or_raise, IsQuiet-if, IsQuiet-read_user, IsQuiet-raise_if,
  IsQuiet-catch_all, IsQuiet-bind, IsQuiet-on_group, IsQuiet-modify, IsQuiet-update_user,
  IsQuiet-send_json_to_user,
)
