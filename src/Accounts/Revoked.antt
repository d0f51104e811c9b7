-- ===== src/Accounts/Revoked.antt =====
-- A session that has ended: no cookie of it is good again, whatever is called.
use globuy.Prelude.{
  ℕ, ◌≡◌, refl, Bool, false, ◌&&◌, not, Option, none, some, ◌==◌, count_if, find_first, inl, inr,
  Bool-cases, same_text, is_some, count_if-update, count_if-update_le, count_if-delete_le, arith,
}
use globuy.Sessions.Schema.{Text}
use globuy.Accounts.Schema.{
  User, AuthSession, RegisterKey, AccountDb, Principal, IssuedSession, Answer, granted, denied,
  Libraries, RedisClient, Settings, Draw,
}
use globuy.Accounts.Tables.{
  is_enabled, has_session_id, user_by_email, session_by_id, new_session, is_register_key,
}
use globuy.Accounts.Service.{
  open_session, sign_in, authenticate_parts, check_row, owner_of, logout, revoke, register,
  conflicts, recover_registration, recover_user, recover_keyed, normalize_email,
}
use globuy.Accounts.Login.{
  login, check_password, after_commit, rehash, change_password, replace_password,
}

-- The sessions of an identifier that are not revoked.
abbrev pub is_open : Text → AuthSession → Bool
is_open id x = has_session_id id x && not (is_some x.revoked_at)

abbrev pub IsDead : Text → AccountDb → Type 0
IsDead id db = count_if (is_open id) db.sessions ≡ 0

module _ (lib : Libraries) (cfg : Settings) (id : Text) where
  open_session-IsDead :
      (d : Draw) (u : User) (f : User → User) (db : AccountDb)
      → same_text d.session_id id ≡ false
      → IsDead id db
      → IsDead id (open_session lib cfg d u f db).1
  unfolding new_session
  open_session-IsDead d u f db other dead = ground (arith, other, dead)

  recover-IsDead :
      (password request_hash : Text) (d : Draw) (u : User) (k : Option RegisterKey) (db : AccountDb)
      → same_text d.session_id id ≡ false
      → IsDead id db
      → IsDead id (recover_keyed lib cfg password request_hash d u k db).1
  recover-IsDead password request_hash d u none db other dead = dead
  recover-IsDead password request_hash d u (some k) db other dead =
      ground (arith, open_session-IsDead d u (sign_in lib cfg d.now) db other dead)

  recover_user-IsDead :
      (password : Text) (request : ℕ) (request_hash : Text) (d : Draw) (o : Option User)
      (db : AccountDb)
      → same_text d.session_id id ≡ false
      → IsDead id db
      → IsDead id (recover_user lib cfg password request request_hash d o db).1
  recover_user-IsDead password request request_hash d none db other dead = dead
  recover_user-IsDead password request request_hash d (some u) db other dead =
      recover-IsDead password request_hash d u
        (find_first (is_register_key u.user_id request) db.keys) db other dead

  pub register-IsDead :
      (email password name : Text) (request : ℕ) (d again : Draw) (db : AccountDb)
      → same_text d.session_id id ≡ false
      → same_text again.session_id id ≡ false
      → IsDead id db
      → IsDead id (register lib cfg email password name request d again db).1
  unfolding register new_session recover_registration
  register-IsDead email password name request d again db other other' dead =
      let e = normalize_email lib cfg email in
      elim (Bool-cases (conflicts lib cfg e request d db)) [
        | inl taken ↦
            rw taken
              (recover_user-IsDead password request _ again (user_by_email e db) db other' dead)
        | inr free ↦ rw free (rw other dead)
      ]

  pub logout-IsDead :
      (p : Principal) (now : ℕ) (db : AccountDb)
      → IsDead id db
      → IsDead id (logout lib cfg p now db)
  unfolding logout
  logout-IsDead p now db dead = omega (
    arith,
    dead,
    count_if-update_le (is_open id) (has_session_id p.session_id) (revoke lib cfg now) db.sessions
        (λ x h k. ground arith),
  )

  check_row-IsDead :
      (now : ℕ) (secret : Text) (s : Option AuthSession) (u : Option User) (db : AccountDb)
      → IsDead id db
      → IsDead id (check_row lib cfg now secret s u db).1
  check_row-IsDead now secret none u db dead = dead
  check_row-IsDead now secret (some s) none db dead = dead
  check_row-IsDead now secret (some s) (some u) db dead = ground (
    arith,
    dead,
    count_if-update (is_open id) (has_session_id s.session_id)
        (λ x. record x { last_seen_at = now }) db.sessions (λ x h. refl),
  )

  pub parts-IsDead :
      (o : Option (Text × Text)) (now : ℕ) (db : AccountDb)
      → IsDead id db
      → IsDead id (authenticate_parts lib cfg o now db).1
  parts-IsDead none now db dead = dead
  parts-IsDead (some (i, secret)) now db dead = ground (
    arith,
    dead,
    check_row-IsDead now secret (session_by_id i db) (owner_of lib cfg (session_by_id i db) db) db
        dead,
  )

  module _ {Redis : Type 0} (client : RedisClient Redis) where
    commit-IsDead :
        (now : ℕ) (e : Text) (s : Redis) (r : Answer IssuedSession × AccountDb)
        → IsDead id r.1
        → IsDead id (after_commit lib cfg client now e s r).1.0
    commit-IsDead now e s (granted issued, db) dead = dead
    commit-IsDead now e s (denied x, db) dead = dead

    check-IsDead :
        (e password : Text) (d : Draw) (o : Option User) (db : AccountDb) (s : Redis)
        → same_text d.session_id id ≡ false
        → IsDead id db
        → IsDead id (check_password lib cfg client e password d o (db, s)).1.0
    check-IsDead e password d none db s other dead = dead
    check-IsDead e password d (some u) db s other dead = elim (Bool-cases (is_enabled u.status)) [
      | inr shut ↦ rw shut dead
      | inl active ↦ elim (Bool-cases (lib.verify u.password_hash password)) [
        | inr wrong ↦ rw (active, wrong) dead
        | inl right ↦
            let f : User → User = λ x. sign_in lib cfg d.now (rehash lib cfg client d password x) in
            rw (active, right)
              (commit-IsDead d.now e s (open_session lib cfg d u f db)
                (open_session-IsDead d u f db other dead))
      ]
    ]

    pub login-IsDead :
        (email password : Text) (d : Draw) (db : AccountDb) (s : Redis)
        → same_text d.session_id id ≡ false
        → IsDead id db
        → IsDead id (login lib cfg client email password d (db, s)).1.0
    unfolding login
    login-IsDead email password d db s other dead =
        let e = normalize_email lib cfg email in
        ground (arith, dead, check-IsDead e password d (user_by_email e db) db s other dead)

    replace-IsDead :
        (e password : Text) (d : Draw) (o : Option User) (db : AccountDb) (s : Redis)
        → IsDead id db
        → IsDead id (replace_password lib cfg client e password d o (db, s)).1.0
    replace-IsDead e password d none db s dead = dead
    replace-IsDead e password d (some u) db s dead =
        ground
          (arith, dead, count_if-delete_le (is_open id) (λ x. x.user_id == u.user_id) db.sessions)

    pub change-IsDead :
        (email password : Text) (d : Draw) (db : AccountDb) (s : Redis)
        → IsDead id db
        → IsDead id (change_password lib cfg client email password d (db, s)).1.0
    unfolding change_password
    change-IsDead email password d db s dead =
        let e = normalize_email lib cfg email in
        replace-IsDead e password d (user_by_email e db) db s dead
