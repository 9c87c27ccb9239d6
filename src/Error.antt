-- ===== src/Error.antt =====
-- utils/error/qls_error.h and qls_error.cpp: the error codes and their messages; and the way a call
-- of the server ends, which the source leaves to C++ exceptions.
use qing_liao_chat_server.Base.{◌≡◌, refl, ◌⊎◌, inl, inr, Bool, true, false, Option, none, some}

pub data Errc : Type 0 where
  -- `OK` of the source.
  errc_ok : Errc
  null_pointer : Errc
  incomplete_package empty_length invalid_data data_too_small data_too_large hash_mismatched : Errc
  null_tls_context null_tls_callback_handle null_socket_pointer connection_test_failed : Errc
  socket_pointer_existed socket_pointer_not_existed : Errc
  password_already_set password_mismatched user_existed user_not_existed : Errc
  verification_existed verification_not_existed invalid_verification : Errc
  private_room_existed private_room_not_existed private_room_unable_to_use : Errc
  group_room_existed group_room_not_existed group_room_unable_to_use : Errc
  group_room_user_level_invalid : Errc
  no_permission permission_denied : Errc

-- How a call ends that returns nothing: `std::system_error` with a code of the program, another
-- exception of the standard library, `resource_deadlock_would_occur` of a mutex, a step that C++
-- leaves undefined, or a wait for a lock that the waiting thread holds itself.
pub data Failure : Type 0 where
  system_error : Errc → Failure
  logic_error : Failure
  deadlock_error : Failure
  undefined_behaviour : Failure
  blocked : Failure

pub data Result (A : Type 0) : Type 0 where
  ok : A → Result A
  err : Failure → Result A

abbrev pub throw : {A : Type 0} → Errc → Result A
throw e = err (system_error e)

-- A call on an object or on the server: what it wrote before an exception stays written.
abbrev pub Action : Type 0 → Type 0 → Type 0
Action S A = S → Result A × S

module _ {S A : Type 0} where
  abbrev pub pure : A → Action S A
  pure a s = (ok a, s)

  abbrev pub raise : Errc → Action S A
  raise e s = (throw e, s)

  abbrev pub fail : Failure → Action S A
  fail f s = (err f, s)

  abbrev pub gets : (S → A) → Action S A
  gets f s = (ok (f s), s)

infixl 5 ◌>>=◌ ◌>>◌
abbrev pub ◌>>=◌ : {S A B : Type 0} → Action S A → (A → Action S B) → Action S B
◌>>=◌ m f s = let (r, t) = m s in elim r [ ok a ↦ f a t | err e ↦ (err e, t) ]

abbrev pub ◌>>◌ : {S A B : Type 0} → Action S A → Action S B → Action S B
m >> k = m >>= λ _. k

abbrev pub modify : {S : Type 0} → (S → S) → Action S (Unit {0})
modify f s = (ok tt, f s)

-- `if (test) throw std::system_error(e);`
abbrev pub raise_if : {S : Type 0} → Bool → Errc → Action S (Unit {0})
raise_if true e s = (throw e, s)
raise_if false e s = (ok tt, s)

abbrev pub or_raise : {S A : Type 0} → Option A → Errc → Action S A
or_raise none e s = (throw e, s)
or_raise (some a) e s = (ok a, s)

-- `catch (...)`: every exception, and neither of the last two failures.
abbrev pub catch_all : {S A : Type 0} → Action S A → Action S A → Action S A
catch_all m h s =
    let (r, t) = m s in
    elim r [
      | ok a ↦ (ok a, t)
      | err f ↦ elim f [
        | system_error e ↦ h t
        | logic_error ↦ h t
        | deadlock_error ↦ h t
        | undefined_behaviour ↦ (err undefined_behaviour, t)
        | blocked ↦ (err blocked, t)
      ]
    ]

-- Whether a call did not return.
abbrev pub fails : {A : Type 0} → Result A → Bool
fails (ok a) = false
fails (err e) = true

pub Result-cases :
    {A : Type 0} (r : Result A) → ((a : A) × (r ≡ ok a)) ⊎ ((e : Failure) × (r ≡ err e))
Result-cases (ok a) = inl (a, refl)
Result-cases (err e) = inr (e, refl)
