-- ===== src/User/Passwords.antt =====
-- The password of a user (server/user/user.cpp `isUserPassword`, `firstUpdateUserPassword`,
-- `updateUserPassword`), for any hash.
use qing_liao_chat_server.Base.{
  String, ◌≡◌, true, false, arith, if◌then◌else◌, Bool-cases, inl, inr,
}
use qing_liao_chat_server.Error.{ok, throw, password_already_set, password_mismatched}
use qing_liao_chat_server.Map.{string_key}
use qing_liao_chat_server.User.{
  User, set_password, is_user_password, first_update_user_password, update_user_password,
}

-- Changing the password needs the old one, which is refused otherwise with nothing changed; after a
-- change, exactly the words whose hash with the new salt is that of the new password are accepted.
pub update_user_password_lem :
    (hash : String → String → String) (old new salt attempt : String) (u : User)
    → let (r, t) = update_user_password hash old new salt u in
      let matches = is_user_password hash old u in
      (r ≡ (if matches then ok tt else throw password_mismatched))
      × (is_user_password hash attempt t ≡ (
          if matches
          then string_key.beq (hash attempt salt) (hash new salt)
          else is_user_password hash attempt u))
      × (t.user_id ≡ u.user_id)
unfolding update_user_password is_user_password set_password
update_user_password_lem hash old new salt attempt u =
    elim (Bool-cases (string_key.beq (hash old u.salt) u.password)) [
      | inl matches ↦ (ground (arith, matches), ground (arith, matches), ground (arith, matches))
      | inr differs ↦ (ground (arith, differs), ground (arith, differs), ground (arith, differs))
    ]

-- The password of a new account is set once, when none is set: it is accepted afterwards, a second
-- setting is refused and changes nothing, and the password can be changed for another one, which is
-- accepted then.
pub first_update_user_password_lem :
    (hash : String → String → String) (p q salt salt' : String) (u : User)
    → string_key.beq u.password "" ≡ true
    → string_key.beq (hash p salt) "" ≡ false
    → let (r, t) = first_update_user_password hash p salt u in
      let (r', t') = update_user_password hash p q salt' t in
      (r ≡ ok tt)
      × (is_user_password hash p t ≡ true)
      × (first_update_user_password hash q salt' t ≡ (throw password_already_set, t))
      × (r' ≡ ok tt)
      × (is_user_password hash q t' ≡ true)
unfolding first_update_user_password update_user_password is_user_password set_password
first_update_user_password_lem hash p q salt salt' u empty nonempty =
    let self = string_key.beq_refl (hash p salt) in
    (
      ground (arith, empty),
      ground (arith, empty, self),
      ground (arith, empty, nonempty),
      ground (arith, empty, self),
      ground (arith, empty, self, string_key.beq_refl (hash q salt')),
    )
