-- ===== src/Accounts/Login.antt =====
-- login and change_password of app/auth/service.py, with the count of failed logins in Redis.
use globuy.Prelude.{
  ℕ, ◌+◌, Bool, true, not, Option, none, some, ◌==◌, leb, delete_where, if◌then◌else◌,
}
use globuy.Sessions.Schema.{Text}
use globuy.Accounts.Schema.{
  User, AccountDb, IssuedSession, invalid_credentials, login_rate_limited, account_not_found,
  Answer, granted, denied, Libraries, RedisClient, Settings, Draw,
}
use globuy.Accounts.Tables.{is_enabled, user_by_email, update_user, new_session}
use globuy.Accounts.Service.{normalize_email, open_session, sign_in}

module _ (lib : Libraries) (cfg : Settings) {Redis : Type 0} (client : RedisClient Redis) where
  -- `"globuy:auth:failed:" + digest`; the constant in front is left out.
  abbrev pub login_key : Text → Text
  login_key e = lib.digest e

  -- What `int(await client.get(key) or 0)` is compared as; an exception lets the login pass.
  abbrev pub is_below : ℕ → Option (Option ℕ) → Bool
  is_below most none = true
  is_below most (some none) = not (leb most 0)
  is_below most (some (some attempts)) = not (leb most attempts)

  unfoldable pub is_login_allowed : ℕ → Text → Redis → Bool
  is_login_allowed now e s =
      if cfg.has_redis_url
      then is_below cfg.auth_login_max_attempts (client.get now (login_key e) s)
      else true

  abbrev pub start_window : ℕ → Text → Option ℕ × Redis → Redis
  start_window now e (none, s) = s
  start_window now e (some attempts, s) =
      if attempts == 1 then client.expire now (login_key e) cfg.auth_login_window_seconds s else s

  unfoldable pub record_failed_login : ℕ → Text → Redis → Redis
  record_failed_login now e s =
      if cfg.has_redis_url then start_window now e (client.incr now (login_key e) s) else s

  unfoldable pub clear_failed_logins : ℕ → Text → Redis → Redis
  clear_failed_logins now e s = if cfg.has_redis_url then client.delete now (login_key e) s else s

  abbrev pub rehash : Draw → Text → User → User
  rehash d password u =
      if lib.check_needs_rehash u.password_hash
      then record u { password_hash = lib.hash d.salt password }
      else u

  abbrev pub LoginState : Type 0
  LoginState = AccountDb × Redis

  -- The counter is cleared behind the commit.
  abbrev pub after_commit :
      ℕ → Text → Redis → Answer IssuedSession × AccountDb → Answer IssuedSession × LoginState
  after_commit now e s (granted issued, db) = (granted issued, (db, clear_failed_logins now e s))
  after_commit now e s (denied x, db) = (denied x, (db, s))

  abbrev pub refuse : ℕ → Text → LoginState → Answer IssuedSession × LoginState
  refuse now e (db, s) = (denied invalid_credentials, (db, record_failed_login now e s))

  abbrev pub check_password :
      Text → Text → Draw → Option User → LoginState → Answer IssuedSession × LoginState
  check_password e password d none st = refuse d.now e st
  check_password e password d (some u) (db, s) =
      if not (is_enabled u.status)
      then refuse d.now e (db, s)
      else if not (lib.verify u.password_hash password)
      then refuse d.now e (db, s)
      else after_commit d.now e s
          (open_session lib cfg d u (λ x. sign_in lib cfg d.now (rehash d password x)) db)

  unfoldable pub login : Text → Text → Draw → LoginState → Answer IssuedSession × LoginState
  unfolding is_login_allowed record_failed_login clear_failed_logins new_session user_by_email
  login email password d (db, s) =
      let e = normalize_email lib cfg email in
      if is_login_allowed d.now e s
      then check_password e password d (user_by_email e db) (db, s)
      else (denied login_rate_limited, (db, s))

  abbrev pub set_password : Draw → Text → User → User
  set_password d password u = record u {
    password_hash = lib.hash d.salt password;
    version = u.version + 1;
    updated_at = d.now;
  }

  abbrev pub delete_sessions : ℕ → AccountDb → AccountDb
  delete_sessions u db = record db { sessions = delete_where (λ x. x.user_id == u) db.sessions }

  abbrev pub replace_password :
      Text → Text → Draw → Option User → LoginState → Answer ℕ × LoginState
  replace_password e password d none st = (denied account_not_found, st)
  replace_password e password d (some u) (db, s) =
      if is_enabled u.status
      then (
        granted u.user_id,
        (
          delete_sessions u.user_id (update_user u.user_id (set_password d password) db),
          clear_failed_logins d.now e s,
        ),
      )
      else (denied account_not_found, (db, s))

  -- Its answer is the user; the e-mail and the time, which the caller and the clock give, are left out.
  unfoldable pub change_password : Text → Text → Draw → LoginState → Answer ℕ × LoginState
  unfolding clear_failed_logins user_by_email
  change_password email password d (db, s) =
      let e = normalize_email lib cfg email in
      replace_password e password d (user_by_email e db) (db, s)
