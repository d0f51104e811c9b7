-- ===== src/Accounts/Limit.antt =====
-- The limit on failed logins.
use globuy.Prelude.{
  ℕ, suc, ◌+◌, ◌*◌, ◌≤◌, ◌<◌, ◌≡◌, refl, sym, subst, min, Bool, true, false, ◌&&◌, not, Option,
  none, some, List, [], ◌∷◌, ◌==◌, leb, length, inl, inr, Bool-cases, if◌then◌else◌, arith,
}
use globuy.Sessions.Schema.{Text}
use globuy.Accounts.Schema.{
  User, AccountDb, invalid_credentials, login_rate_limited, denied, Libraries, RedisClient,
  Settings, Draw,
}
use globuy.Accounts.Tables.{is_enabled, user_by_email}
use globuy.Accounts.Service.{normalize_email}
use globuy.Accounts.Login.{login, login_key, is_login_allowed, record_failed_login, check_password}

-- What GET gives for a counter.
abbrev pub counter : ℕ → Option ℕ
counter n = if n == 0 then none else some n

-- Until a time, the counter of a key reads a number.
abbrev pub Reads : {Redis : Type 0} → RedisClient Redis → Text → ℕ → ℕ → Redis → Type 0
Reads client key limit n s = (now : ℕ) → now < limit → client.get now key s ≡ some (counter n)

-- What Redis documents of a counter that lives until a time: INCR answers and keeps one more, and
-- EXPIRE lets the key live for so many seconds.
pub record KeepsCount {Redis : Type 0} (client : RedisClient Redis) : Type 0 where
  pub incr_law :
      (key : Text) (limit n now : ℕ) (s : Redis)
      → now < limit
      → Reads client key limit n s
      → ((client.incr now key s).0 ≡ some (suc n))
        × Reads client key limit (suc n) (client.incr now key s).1
  pub expire_law :
      (key : Text) (limit n now seconds : ℕ) (s : Redis)
      → limit ≤ now + seconds * 1000000
      → Reads client key limit n s
      → Reads client key limit n (client.expire now key seconds s)

-- An attempt to log in.
pub record Attempt : Type 0 where
  pub password : Text
  pub draw : Draw

module _ (lib : Libraries) (cfg : Settings) {Redis : Type 0} (client : RedisClient Redis) where
  unfoldable pub is_wrong : Option User → Text → Bool
  is_wrong none password = true
  is_wrong (some u) password = not (is_enabled u.status && lib.verify u.password_hash password)

  unfoldable pub attempt_all : Text → List Attempt → AccountDb × Redis → AccountDb × Redis
  attempt_all email [] st = st
  attempt_all email (a ∷ rest) st =
      attempt_all email rest (login lib cfg client email a.password a.draw st).1

  -- Wrong passwords, tried within the window that ends at a time.
  abbrev pub AllWrong : Option User → ℕ → List Attempt → Type 0
  AllWrong o limit [] = Unit {0}
  AllWrong o limit (a ∷ rest) =
      (is_wrong o a.password ≡ true)
      × (a.draw.now < limit)
      × (limit ≤ a.draw.now + cfg.auth_login_window_seconds * 1000000)
      × AllWrong o limit rest

  module _ (laws : KeepsCount client) (has_redis : cfg.has_redis_url ≡ true) (limit : ℕ) where
    record-Reads :
        (e : Text) (n now : ℕ) (s : Redis)
        → now < limit
        → limit ≤ now + cfg.auth_login_window_seconds * 1000000
        → Reads client (login_key lib cfg client e) limit n s
        → Reads client
            (login_key lib cfg client e)
            limit
            (suc n)
            (record_failed_login lib cfg client now e s)
    unfolding record_failed_login
    record-Reads e n now s soon window h =
        let key : Text = login_key lib cfg client e in
        let up = laws.incr_law key limit n now s soon h in
        let s' : Redis = (client.incr now key s).1 in
        let kept =
          laws.expire_law key limit (suc n) now cfg.auth_login_window_seconds s' window up.1 in
        rw (has_redis, up.0)
          (elim (Bool-cases (suc n == 1)) [
            | inl first ↦ rw first kept
            | inr later ↦ rw later (up.1)
          ])

    allowed_lem :
        (e : Text) (n now : ℕ) (s : Redis)
        → now < limit
        → Reads client (login_key lib cfg client e) limit n s
        → is_login_allowed lib cfg client now e s ≡ not (leb cfg.auth_login_max_attempts n)
    unfolding is_login_allowed
    allowed_lem e n now s soon h =
        rw (has_redis, h now soon)
          (elim (Bool-cases (n == 0)) [
            | inl zero_yet ↦ ground (arith, zero_yet)
            | inr more ↦ rw more refl
          ])

    wrong_check :
        (e password : Text) (d : Draw) (o : Option User) (db : AccountDb) (s : Redis)
        → is_wrong o password ≡ true
        → check_password lib cfg client e password d o (db, s)
          ≡ (denied invalid_credentials, (db, record_failed_login lib cfg client d.now e s))
    unfolding is_wrong
    wrong_check e password d none db s h = refl
    wrong_check e password d (some u) db s h = elim (Bool-cases (is_enabled u.status)) [
      | inr shut ↦ rw shut refl
      | inl active ↦
          let wrong : lib.verify u.password_hash password ≡ false = ground (arith, h, active) in
          rw (active, wrong) refl
    ]

    login_full :
        (email password : Text) (d : Draw) (n : ℕ) (db : AccountDb) (s : Redis)
        → d.now < limit
        → Reads client (login_key lib cfg client (normalize_email lib cfg email)) limit n s
        → leb cfg.auth_login_max_attempts n ≡ true
        → login lib cfg client email password d (db, s) ≡ (denied login_rate_limited, (db, s))
    unfolding login
    login_full email password d n db s soon h full =
        rw (allowed_lem (normalize_email lib cfg email) n d.now s soon h, full) refl

    login_wrong :
        (email password : Text) (d : Draw) (n : ℕ) (db : AccountDb) (s : Redis)
        → let e = normalize_email lib cfg email in
          d.now < limit
          → Reads client (login_key lib cfg client e) limit n s
          → leb cfg.auth_login_max_attempts n ≡ false
          → is_wrong (user_by_email e db) password ≡ true
          → login lib cfg client email password d (db, s)
            ≡ (denied invalid_credentials, (db, record_failed_login lib cfg client d.now e s))
    unfolding login
    login_wrong email password d n db s soon h room wrong =
        let e = normalize_email lib cfg email in
        rw (allowed_lem e n d.now s soon h, room)
          (wrong_check e password d (user_by_email e db) db s wrong)

    -- The tables stay, and the counter goes up to the limit.
    abbrev Counted : Text → ℕ → AccountDb → AccountDb × Redis → Type 0
    Counted email n db (db', s') =
        (db' ≡ db)
        × Reads client (login_key lib cfg client (normalize_email lib cfg email)) limit
            (min cfg.auth_login_max_attempts n) s'

    attempts-Counted :
        (email : Text) (n : ℕ) (rest : List Attempt) (db : AccountDb) (s : Redis)
        → let e = normalize_email lib cfg email in
          AllWrong (user_by_email e db) limit rest
          → n ≤ cfg.auth_login_max_attempts
          → Reads client (login_key lib cfg client e) limit n s
          → Counted email (n + length rest) db (attempt_all email rest (db, s))
    unfolding attempt_all
    attempts-Counted email n [] db s wrong below h =
        let same : min cfg.auth_login_max_attempts (n + 0) ≡ n = omega (arith, below) in
        (refl, rw same h)
    attempts-Counted email n (a ∷ rest) db s wrong below h =
        let e = normalize_email lib cfg email in
        elim (Bool-cases (leb cfg.auth_login_max_attempts n)) [
          | inl full ↦
              let same : min cfg.auth_login_max_attempts (n + suc (length rest))
                  ≡ min cfg.auth_login_max_attempts (n + length rest) =
                ground (arith, below, full) in
              subst (λ q. Counted email (n + suc (length rest)) db (attempt_all email rest q.1))
                (sym (login_full email a.password a.draw n db s wrong.1 h full))
                (rw same (attempts-Counted email n rest db s wrong.3 below h))
          | inr room ↦
              let s' : Redis = record_failed_login lib cfg client a.draw.now e s in
              let same : n + suc (length rest) ≡ suc n + length rest = omega arith in
              subst (λ q. Counted email (n + suc (length rest)) db (attempt_all email rest q.1))
                (sym (login_wrong email a.password a.draw n db s wrong.1 h room wrong.0))
                (rw same (
                  attempts-Counted email (suc n) rest db s' wrong.3 (ground (arith, room))
                    (record-Reads e n a.draw.now s wrong.1 wrong.2 h)))
        ]

-- With a counter that starts at 0 and lives until a time: after wrong passwords for one e-mail, all tried
-- in that time, the tables are as they were. Once as many have been tried as the setting allows, every
-- login for that e-mail is refused as too frequent until then, the right password included, and changes
-- nothing. Before that, its password is checked.
pub failed_logins_are_limited :
    (lib : Libraries) (cfg : Settings) {Redis : Type 0} (client : RedisClient Redis)
    → KeepsCount client
    → cfg.has_redis_url ≡ true
    → (limit : ℕ) (email : Text) (db : AccountDb) (s : Redis) (tried : List Attempt)
    → let e = normalize_email lib cfg email in
      Reads client (login_key lib cfg client e) limit 0 s
      → AllWrong lib cfg client (user_by_email e db) limit tried
      → (password : Text) (d : Draw) → d.now < limit
      → let (db', s') = attempt_all lib cfg client email tried (db, s) in
        (db' ≡ db)
        × (login lib cfg client email password d (db', s') ≡ (
            if leb cfg.auth_login_max_attempts (length tried)
            then (denied login_rate_limited, (db', s'))
            else check_password lib cfg client e password d (user_by_email e db') (db', s')))
unfolding login
failed_logins_are_limited lib cfg client laws has_redis limit email db s tried start wrong password
      d soon =
    let e = normalize_email lib cfg email in
    let (db', s') = attempt_all lib cfg client email tried (db, s) in
    let done =
      attempts-Counted lib cfg client laws has_redis limit email 0 tried db s wrong (omega arith)
        start in
    let most = cfg.auth_login_max_attempts in
    let may =
      allowed_lem lib cfg client laws has_redis limit e (min most (0 + length tried)) d.now s' soon
        done.1 in
    (
      done.0,
      elim (Bool-cases (leb most (length tried))) [
        | inl full ↦
            let full' : leb most (min most (0 + length tried)) ≡ true = ground (arith, full) in
            rw (may, full, full') refl
        | inr room ↦
            let room' : leb most (min most (0 + length tried)) ≡ false = ground (arith, room) in
            rw (may, room, room') refl
      ],
    )
