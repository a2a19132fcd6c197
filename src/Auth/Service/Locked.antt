-- ===== src/Auth/Service/Locked.antt =====
-- `Login` and the limiter together.
use my_tech_pulse.Base.{
  ℕ, ◌+◌, ◌*◌, ◌^◌, ◌≤◌, ◌<◌, ◌≡◌, min, false, none, some, Text, Duration, minute, sym, ap, subst,
}
use my_tech_pulse.Unicode.{Unicode, trim_space}
use my_tech_pulse.LoginLimiter.{
  LoginLimiter, LimitEntry, account_key, entry_for, account_max_failures, lockout_max, allowed,
}
use my_tech_pulse.LoginLimiter.Current.{IsValid}
use my_tech_pulse.LoginLimiter.Lockout.{check-failure_locked}
use my_tech_pulse.Auth.{Bcrypt, Tokens, validate_username, validate_password}
use my_tech_pulse.Auth.Store.{user_by_name}
use my_tech_pulse.Auth.Service.{
  Call, Server, denied, too_many_attempts, check_limit, count_failure, login,
}
use my_tech_pulse.Auth.Service.Login.{is_right, login-wrong, login-locked}

module _ ⦃u : Unicode⦄ ⦃b : Bcrypt⦄ ⦃k : Tokens⦄ where
  -- The fifth or a later wrong password in a window locks the account: until the lock ends, a login under
  -- any spelling of the name, from any address and with any password, the right one too, is refused and
  -- leaves the server as it is.
  pub login-wrong_locked :
      (threshold : ℕ) (c d : Call) (s : Server) (l : LoginLimiter) (e : LimitEntry)
      (username other password guess : Text)
      → s.limiter ≡ some l
      → IsValid l
      → account_key (trim_space username) ≡ account_key (trim_space other)
      → entry_for l.accounts (account_key (trim_space username)) c.failed_at ≡ e
      → account_max_failures ≤ e.failures + 1
      → c.failed_at ≤ d.checked_at
      → d.checked_at < c.failed_at + min (minute * 2 ^ e.level) lockout_max
      → (validate_username username).1 ≡ none
      → validate_password password ≡ none
      → (validate_username other).1 ≡ none
      → validate_password guess ≡ none
      → check_limit c s.limiter (trim_space username) ≡ allowed
      → c.down 0 ≡ false
      → is_right (user_by_name (trim_space username) s.db.users) password ≡ false
      → (wait : Duration) × (login threshold d (login threshold c s username password).0 other guess
          ≡ ((login threshold c s username password).0, denied (too_many_attempts wait)))
  unfolding check_limit count_failure
  login-wrong_locked threshold c d s l e username other password guess has_limiter v same current
        many le locked good fine good_other fine_other allow up wrong =
      let name = trim_space username in
      let lock =
        check-failure_locked threshold l e name c.ip (trim_space other) d.ip c.failed_at
          d.checked_at v same current many le locked in
      let after : Server = record s { limiter = count_failure threshold c s.limiter name } in
      (
        lock.0,
        subst
            (λ (x : Server).
              login threshold d x other guess ≡ (x, denied (too_many_attempts lock.0)))
            (sym (
              ap (λ r. r.0) (login-wrong threshold c s username password good fine allow up wrong)))
            (login-locked threshold d after other guess lock.0 good_other fine_other
              (rw has_limiter lock.1)),
      )
