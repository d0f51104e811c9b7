-- ===== src/Accounts/Ended.antt =====
-- Sequences of calls of AuthService behind the end of a session.
use globuy.Prelude.{
  ℕ, ◌≤◌, ◌≡◌, refl, Bool, true, false, Option, none, some, List, [], ◌∷◌, ◌==◌, count_if,
  find_first, delete_where, inl, inr, Option-cases, same_text, is_some, find_first-some,
  find_first_counts, count_if-update_zero, count_if-delete_le, arith,
}
use globuy.Sessions.Schema.{Text}
use globuy.Accounts.Schema.{
  User, AuthSession, AccountDb, Principal, auth_required, denied, Libraries, RedisClient, Settings,
  Draw,
}
use globuy.Accounts.Tables.{has_session_id, session_by_id, split_dot}
use globuy.Accounts.Service.{
  authenticate, authenticate_parts, check_row, owner_of, logout, revoke, register,
}
use globuy.Accounts.Login.{login, change_password}
use globuy.Accounts.Revoked.{
  is_open, IsDead, register-IsDead, logout-IsDead, parts-IsDead, login-IsDead, change-IsDead,
}

pub data AccountCall : Type 0 where
  registers : (email password display_name : Text) (request : ℕ) (d again : Draw) → AccountCall
  logs_in : (email password : Text) (d : Draw) → AccountCall
  changes : (email password : Text) (d : Draw) → AccountCall
  authenticates : (cookie_value : Text) (now : ℕ) → AccountCall
  logs_out : Principal → (now : ℕ) → AccountCall

-- The calls that draw a session's identifier draw other ones.
abbrev pub Avoids : Text → List AccountCall → Type 0
Avoids id [] = Unit {0}
Avoids id (registers email password name request d again ∷ cs) =
    (same_text d.session_id id ≡ false) × (same_text again.session_id id ≡ false) × Avoids id cs
Avoids id (logs_in email password d ∷ cs) = (same_text d.session_id id ≡ false) × Avoids id cs
Avoids id (changes email password d ∷ cs) = Avoids id cs
Avoids id (authenticates cookie_value now ∷ cs) = Avoids id cs
Avoids id (logs_out p now ∷ cs) = Avoids id cs

module _ (lib : Libraries) (cfg : Settings) {Redis : Type 0} (client : RedisClient Redis) where
  unfoldable pub perform : AccountCall → AccountDb × Redis → AccountDb × Redis
  perform (registers email password name request d again) (db, s) =
      ((register lib cfg email password name request d again db).1, s)
  perform (logs_in email password d) st = (login lib cfg client email password d st).1
  perform (changes email password d) st = (change_password lib cfg client email password d st).1
  perform (authenticates cookie_value now) (db, s) =
      ((authenticate lib cfg cookie_value now db).1, s)
  perform (logs_out p now) (db, s) = (logout lib cfg p now db, s)

  unfoldable pub perform_all : List AccountCall → AccountDb × Redis → AccountDb × Redis
  perform_all [] st = st
  perform_all (c ∷ cs) st = perform_all cs (perform c st)

  pub all-IsDead :
      (id : Text) (cs : List AccountCall) (db : AccountDb) (s : Redis)
      → Avoids id cs
      → IsDead id db
      → IsDead id (perform_all cs (db, s)).0
  unfolding perform_all perform authenticate
  all-IsDead id [] db s a dead = dead
  all-IsDead id (registers email password name request d again ∷ cs) db s a dead =
      all-IsDead id cs (register lib cfg email password name request d again db).1 s a.2
        (register-IsDead lib cfg id email password name request d again db a.0 a.1 dead)
  all-IsDead id (logs_in email password d ∷ cs) db s a dead =
      let after : AccountDb × Redis = (login lib cfg client email password d (db, s)).1 in
      all-IsDead id cs after.0 after.1 a.1
        (login-IsDead lib cfg id client email password d db s a.0 dead)
  all-IsDead id (changes email password d ∷ cs) db s a dead =
      let after : AccountDb × Redis = (change_password lib cfg client email password d (db, s)).1 in
      all-IsDead id cs after.0 after.1 a
        (change-IsDead lib cfg id client email password d db s dead)
  all-IsDead id (authenticates cookie_value now ∷ cs) db s a dead =
      all-IsDead id cs (authenticate lib cfg cookie_value now db).1 s a
        (parts-IsDead lib cfg id (split_dot cookie_value) now db dead)
  all-IsDead id (logs_out p now ∷ cs) db s a dead =
      all-IsDead id cs (logout lib cfg p now db) s a (logout-IsDead lib cfg id p now db dead)

  revoked-denied :
      (secret : Text) (now : ℕ) (x : AuthSession) (o : Option User) (db : AccountDb)
      → is_some x.revoked_at ≡ true
      → (check_row lib cfg now secret (some x) o db).0 ≡ denied auth_required
  revoked-denied secret now x none db h = refl
  revoked-denied secret now x (some u) db h = rw h refl

  revoked_if_dead :
      (id : Text) (db : AccountDb) (x : AuthSession)
      → IsDead id db
      → session_by_id id db ≡ some x
      → is_some x.revoked_at ≡ true
  unfolding session_by_id
  revoked_if_dead id db x dead found = ground (
    arith,
    dead,
    find_first-some (has_session_id id) db.sessions x found,
    find_first_counts (has_session_id id) (is_open id) db.sessions x found,
  )

  -- No cookie of a dead session is good.
  pub dead-denied :
      (id secret : Text) (now : ℕ) (db : AccountDb)
      → IsDead id db
      → (authenticate_parts lib cfg (some (id, secret)) now db).0 ≡ denied auth_required
  unfolding session_by_id
  dead-denied id secret now db dead = elim (Option-cases (session_by_id id db)) [
    | inl missing ↦ rw missing (ground arith)
    | inr (x, found) ↦
        let shut =
          revoked-denied secret now x (owner_of lib cfg (some x) db) db
            (revoked_if_dead id db x dead found) in
        rw found (ground (arith, shut))
  ]

pub delete-zero :
    (p : AuthSession → Bool) (u : ℕ) (xs : List AuthSession) (x : AuthSession)
    → find_first p xs ≡ some x
    → (x.user_id == u) ≡ true
    → count_if p xs ≤ 1
    → count_if p (delete_where (λ y. y.user_id == u) xs) ≡ 0
delete-zero p u [] x e h k = cc
delete-zero p u (y ∷ xs) x e h k = ground (
  arith,
  delete-zero p u xs x,
  find_first_counts p p xs x,
  find_first-some p xs x,
  count_if-delete_le p (λ z. z.user_id == u) xs,
)

-- Behind a logout, whatever is registered, logged in, authenticated, logged out or given a new
-- password in any order, no cookie that names the session is good, with whatever secret and at
-- whatever time: as long as no call draws the identifier of the session again.
pub logged_out_for_good :
    (lib : Libraries) (cfg : Settings) {Redis : Type 0} (client : RedisClient Redis) (p : Principal)
    (now : ℕ) (db : AccountDb) (s : Redis) (cs : List AccountCall)
    → Avoids p.session_id cs
    → (cookie_value secret : Text) (now' : ℕ) → split_dot cookie_value ≡ some (p.session_id, secret)
    → (authenticate lib cfg cookie_value now'
        (perform_all lib cfg client cs (logout lib cfg p now db, s)).0).0
      ≡ denied auth_required
unfolding authenticate logout
logged_out_for_good lib cfg client p now db s cs a cookie_value secret now' split =
    let dead : IsDead p.session_id (logout lib cfg p now db) =
      count_if-update_zero (is_open p.session_id) (has_session_id p.session_id) (revoke lib cfg now)
        db.sessions (λ x. ground arith) in
    rw split (
      dead-denied lib cfg client p.session_id secret now' _
        (all-IsDead lib cfg client p.session_id cs (logout lib cfg p now db) s a dead))
