-- ===== src/Accounts/Cookies.antt =====
-- The cookie of an issued session, read back.
use globuy.Prelude.{
  same_text_refl, ℕ, ◌+◌, ◌*◌, ◌≤◌, ◌<◌, ◌≡◌, refl, true, false, Option, none, some, [], ◌∷◌, ◌==◌,
  leb, any, count_if, find_first, inl, inr, Bool-cases, ==-refl, find_first_unique,
  find_first-update, arith, subst,
}
use globuy.Sessions.Schema.{Text}
use globuy.Accounts.Schema.{
  User, AccountDb, IssuedSession, Answer, granted, denied, Libraries, RedisClient, Settings, Draw,
}
use globuy.Accounts.Tables.{
  is_enabled, has_email, has_user_id, user_by_email, session_by_id, new_session, day, session_row,
  add_session, update_user, split_dot, is_blank, cookie, is_session_taken,
}
use globuy.Accounts.Service.{open_session, sign_in, authenticate, normalize_email}
use globuy.Accounts.Login.{login, check_password, after_commit, rehash, is_login_allowed}

-- A cookie is split where it was joined.
split_dot-cookie :
    (id secret : Text)
    → any (λ c. c == 46) id ≡ false
    → split_dot (cookie id secret) ≡ some (id, secret)
unfolding split_dot
split_dot-cookie [] secret h = refl
split_dot-cookie (c ∷ id) secret h = ground (arith, split_dot-cookie id secret)

module _ (lib : Libraries) (cfg : Settings) (d : Draw)
    (dotless : any (λ c. c == 46) d.session_id ≡ false) (named : is_blank d.session_id ≡ false)
    (secret : is_blank d.secret ≡ false) where
  -- The session that an answer issues proves its principal until it expires.
  abbrev Proves : Answer IssuedSession × AccountDb → Type 0
  Proves (denied e, db) = Unit {0}
  Proves (granted issued, db) =
      (now : ℕ)
      → now < issued.expires_at
      → (authenticate lib cfg issued.cookie_value now db).0 ≡ granted issued.principal

  -- The owner may have been changed, but for what the principal shows.
  row-Proves :
      (u x : User) (db : AccountDb)
      → find_first (has_user_id u.user_id) db.users ≡ some x
      → is_enabled x.status ≡ true
      → x.user_id ≡ u.user_id
      → x.email_normalized ≡ u.email_normalized
      → x.display_name ≡ u.display_name
      → Proves (granted (new_session lib cfg d u).1, add_session (session_row lib cfg d u) db)
  unfolding new_session authenticate session_by_id
  row-Proves u x db found active same_id same_email same_name now h =
      let later : leb (d.now + cfg.auth_session_days * day) now ≡ false = ground (arith, h) in
      rw (split_dot-cookie d.session_id d.secret dotless) (
        rw (named, secret, same_text_refl d.session_id)
          (rw (found, later, active, same_text_refl (lib.digest d.secret))
            (rw (same_id, same_email, same_name) refl)))

  open-Proves :
      (u : User) (f : User → User) (db : AccountDb)
      → is_enabled u.status ≡ true
      → find_first (has_user_id u.user_id) db.users ≡ some u
      → ((x : User)
          → ((f x).user_id ≡ x.user_id)
            × ((f x).status ≡ x.status)
            × ((f x).email_normalized ≡ x.email_normalized)
            × ((f x).display_name ≡ x.display_name))
      → Proves (open_session lib cfg d u f db)
  unfolding new_session
  open-Proves u f db active found same = elim (Bool-cases (is_session_taken d.session_id db)) [
    | inl taken ↦ rw taken tt
    | inr free ↦
        let changed =
          find_first-update (has_user_id u.user_id) f db.users u (λ x h. rw (same x).0 h) found in
        rw free (
          row-Proves u (f u) (update_user u.user_id f db) changed (rw (same u).1 active) (same u).0
            (same u).2 (same u).3)
  ]

module _ (lib : Libraries) (cfg : Settings) (d : Draw)
    (dotless : any (λ c. c == 46) d.session_id ≡ false) (named : is_blank d.session_id ≡ false)
    (secret : is_blank d.secret ≡ false) {Redis : Type 0} (client : RedisClient Redis) where
  abbrev Answers : Answer IssuedSession × (AccountDb × Redis) → Type 0
  Answers (a, (db, s)) = Proves lib cfg d dotless named secret (a, db)

  commit-Answers :
      (e : Text) (s : Redis) (r : Answer IssuedSession × AccountDb)
      → Proves lib cfg d dotless named secret r
      → Answers (after_commit lib cfg client d.now e s r)
  commit-Answers e s (granted issued, db) h = h
  commit-Answers e s (denied x, db) h = tt

  rehash_keeps :
      (password : Text) (x : User)
      → let y = sign_in lib cfg d.now (rehash lib cfg client d password x) in
        (y.user_id ≡ x.user_id)
        × (y.status ≡ x.status)
        × (y.email_normalized ≡ x.email_normalized)
        × (y.display_name ≡ x.display_name)
  rehash_keeps password x = elim (Bool-cases (lib.check_needs_rehash x.password_hash)) [
    | inl old ↦ rw old (refl, refl, refl, refl)
    | inr recent ↦ rw recent (refl, refl, refl, refl)
  ]

  check-Answers :
      (e password : Text) (o : Option User) (db : AccountDb) (s : Redis)
      → ((u : ℕ) → count_if (has_user_id u) db.users ≤ 1)
      → user_by_email e db ≡ o
      → Answers (check_password lib cfg client e password d o (db, s))
  unfolding user_by_email
  check-Answers e password none db s unique found = tt
  check-Answers e password (some u) db s unique found = elim (Bool-cases (is_enabled u.status)) [
    | inr shut ↦ rw shut tt
    | inl active ↦ elim (Bool-cases (lib.verify u.password_hash password)) [
      | inr wrong ↦ rw (active, wrong) tt
      | inl right ↦
          let f : User → User = λ x. sign_in lib cfg d.now (rehash lib cfg client d password x) in
          let by_id =
            find_first_unique (has_email e) (has_user_id u.user_id) db.users u found
              (==-refl u.user_id) (unique u.user_id) in
          rw (active, right)
            (commit-Answers e s (open_session lib cfg d u f db) (
              open-Proves lib cfg d dotless named secret u f db active by_id
                (rehash_keeps password)))
    ]
  ]

  login-Answers :
      (email password : Text) (db : AccountDb) (s : Redis)
      → ((u : ℕ) → count_if (has_user_id u) db.users ≤ 1)
      → Answers (login lib cfg client email password d (db, s))
  unfolding login
  login-Answers email password db s unique =
      let e = normalize_email lib cfg email in
      elim (Bool-cases (is_login_allowed lib cfg client d.now e s)) [
        | inl allowed ↦ rw allowed (check-Answers e password (user_by_email e db) db s unique refl)
        | inr limited ↦ rw limited tt
      ]

-- A login that issues a session gives a cookie that proves, until the session expires, the principal
-- that the login has returned, its user, its e-mail and its CSRF hash included: where users have
-- distinct identifiers, the session's identifier has no dot, and it and the secret are not empty.
pub login_authenticates :
    (lib : Libraries) (cfg : Settings) {Redis : Type 0} (client : RedisClient Redis)
    (email password : Text) (d : Draw) (db db' : AccountDb) (s s' : Redis) (issued : IssuedSession)
    → any (λ c. c == 46) d.session_id ≡ false
    → is_blank d.session_id ≡ false
    → is_blank d.secret ≡ false
    → ((u : ℕ) → count_if (has_user_id u) db.users ≤ 1)
    → login lib cfg client email password d (db, s) ≡ (granted issued, (db', s'))
    → (now : ℕ) → now < issued.expires_at
    → (authenticate lib cfg issued.cookie_value now db').0 ≡ granted issued.principal
login_authenticates lib cfg {Redis} client email password d db db' s s' issued dotless named secret
      unique done =
    subst (Answers lib cfg d dotless named secret client) done
      (login-Answers lib cfg d dotless named secret client email password db s unique)
