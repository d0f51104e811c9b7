-- ===== src/Accounts/Password.antt =====
-- What a change of password ends.
use globuy.Prelude.{
  ℕ, ◌≤◌, ◌≡◌, Option, none, some, List, ◌==◌, count_if, inl, inr, Bool-cases, arith, subst,
  ==-refl, count_if_mono, delete_where, find_first,
}
use globuy.Sessions.Schema.{Text}
use globuy.Accounts.Schema.{
  User, AuthSession, AccountDb, auth_required, Answer, granted, denied, Libraries, RedisClient,
  Settings, Draw,
}
use globuy.Accounts.Tables.{is_enabled, has_session_id, session_by_id, user_by_email, split_dot}
use globuy.Accounts.Service.{authenticate, normalize_email}
use globuy.Accounts.Login.{change_password, replace_password}
use globuy.Accounts.Revoked.{is_open, IsDead}
use globuy.Accounts.Ended.{AccountCall, Avoids, perform_all, all-IsDead, dead-denied, delete-zero}

-- The sessions of the user of a granted change are gone.
abbrev Ends : {Redis : Type 0} → AccountDb → Answer ℕ × (AccountDb × Redis) → Type 0
Ends db (denied e, st) = Unit {0}
Ends db (granted u, (db', s)) =
    (id : Text) (x : AuthSession)
    → session_by_id id db ≡ some x
    → x.user_id ≡ u
    → count_if (has_session_id id) db.sessions ≤ 1
    → IsDead id db'

none_left :
    (u : ℕ) (xs : List AuthSession) (id : Text) (x : AuthSession)
    → find_first (has_session_id id) xs ≡ some x
    → x.user_id ≡ u
    → count_if (has_session_id id) xs ≤ 1
    → count_if (is_open id) (delete_where (λ y. y.user_id == u) xs) ≡ 0
none_left u xs id x found owner unique = omega (
  arith,
  delete-zero (has_session_id id) u xs x found (rw owner (==-refl u)) unique,
  count_if_mono (is_open id) (has_session_id id) (delete_where (λ y. y.user_id == u) xs)
      (λ y h. ground arith),
)

replace-Ends :
    (lib : Libraries) (cfg : Settings) {Redis : Type 0} (client : RedisClient Redis)
    (e password : Text) (d : Draw) (o : Option User) (db : AccountDb) (s : Redis)
    → Ends db (replace_password lib cfg client e password d o (db, s))
unfolding session_by_id
replace-Ends lib cfg client e password d none db s = tt
replace-Ends lib cfg client e password d (some u) db s = elim (Bool-cases (is_enabled u.status)) [
  | inr shut ↦ rw shut tt
  | inl active ↦
      rw active (λ id x found owner unique. none_left u.user_id db.sessions id x found owner unique)
]

-- A change of password that succeeds ends every session that the user has: whatever is called
-- afterwards, as long as no call draws the identifier of that session again, no cookie that names it is
-- good. The session's identifier is a key of the table.
pub password_change_ends_sessions :
    (lib : Libraries) (cfg : Settings) {Redis : Type 0} (client : RedisClient Redis)
    (email password : Text) (d : Draw) (db db' : AccountDb) (s s' : Redis) (u : ℕ)
    → change_password lib cfg client email password d (db, s) ≡ (granted u, (db', s'))
    → (id : Text) (x : AuthSession) → session_by_id id db ≡ some x
    → x.user_id ≡ u
    → count_if (has_session_id id) db.sessions ≤ 1
    → (cs : List AccountCall) → Avoids id cs
    → (cookie_value secret : Text) (now : ℕ) → split_dot cookie_value ≡ some (id, secret)
    → (authenticate lib cfg cookie_value now (perform_all lib cfg client cs (db', s')).0).0
      ≡ denied auth_required
unfolding change_password authenticate
password_change_ends_sessions lib cfg client email password d db db' s s' u done id x found owner
      unique cs a cookie_value secret now split =
    let e = normalize_email lib cfg email in
    let ends : Ends db (granted u, (db', s')) =
      subst (Ends db) done (replace-Ends lib cfg client e password d (user_by_email e db) db s) in
    rw split (
      dead-denied lib cfg client id secret now (perform_all lib cfg client cs (db', s')).0
        (all-IsDead lib cfg client id cs db' s' a (ends id x found owner unique)))
