-- ===== src/Accounts/Again.antt =====
-- A registration that is sent again.
use globuy.Prelude.{
  same_text_refl, ℕ, ◌≡◌, refl, true, false, not, some, ◌∷◌, ◌++◌, any, find_first, same_text,
  if◌then◌else◌, ==-refl, arith, any_of_count, find_first-some,
}
use globuy.Sessions.Schema.{Text}
use globuy.Accounts.Schema.{
  User, RegisterKey, AccountDb, email_already_registered, idempotency_key_reused, denied, Libraries,
  Settings, Draw,
}
use globuy.Accounts.Tables.{has_email, is_register_key, user_by_email}
use globuy.Accounts.Service.{
  register, recover_registration, recover_keyed, open_session, sign_in, conflicts, new_user,
  normalize_email,
}

abbrev request_hash : Libraries → Settings → Text → Text → Text
request_hash lib cfg email name = lib.digest (normalize_email lib cfg email ++ 10 ∷ lib.strip name)

known_conflicts :
    (lib : Libraries) (cfg : Settings) (e : Text) (request : ℕ) (d : Draw) (db : AccountDb)
    → any (has_email e) db.users ≡ true
    → conflicts lib cfg e request d db ≡ true
known_conflicts lib cfg e request d db known = ground arith

-- A registration for an account whose request is known.
known_register :
    (lib : Libraries) (cfg : Settings) (email password name : Text) (request : ℕ) (d again : Draw)
    (db : AccountDb) (u : User) (k : RegisterKey)
    → user_by_email (normalize_email lib cfg email) db ≡ some u
    → find_first (is_register_key u.user_id request) db.keys ≡ some k
    → register lib cfg email password name request d again db
      ≡ recover_keyed lib cfg password (request_hash lib cfg email name) again u (some k) db
unfolding register recover_registration user_by_email
known_register lib cfg email password name request d again db u k found key =
    let e = normalize_email lib cfg email in
    let known : any (has_email e) db.users ≡ true =
      any_of_count (has_email e) db.users (find_first-some (has_email e) db.users u found).1 in
    rw (known_conflicts lib cfg e request d db known) (rw (found, key) refl)

module _ (lib : Libraries) (cfg : Settings) (email password name : Text) (request : ℕ)
    (d again : Draw) (db : AccountDb)
    (free : conflicts lib cfg (normalize_email lib cfg email) request d db ≡ false) where
  abbrev after : AccountDb
  after = (register lib cfg email password name request d again db).1

  abbrev registered : User
  registered = new_user lib cfg (normalize_email lib cfg email) password (lib.strip name) d

  abbrev key_row : RegisterKey
  key_row = record {
    user_id = d.user_id;
    client_request_id = request;
    request_hash = request_hash lib cfg email name;
    created_at = d.now;
  }

  rows_added : (after.users ≡ registered ∷ db.users) × (after.keys ≡ key_row ∷ db.keys)
  unfolding register
  rows_added = ground (arith, free)

  registered_user : user_by_email (normalize_email lib cfg email) after ≡ some registered
  unfolding user_by_email
  registered_user = rw (rows_added.0) (rw (same_text_refl (normalize_email lib cfg email)) refl)

  registered_key : find_first (is_register_key d.user_id request) after.keys ≡ some key_row
  registered_key = rw (rows_added.1) (rw (==-refl d.user_id, ==-refl request) refl)

-- A registration that has made an account, sent again under the same e-mail and request id, makes no second
-- one: with another name it is refused as already registered, with a password that does not verify as
-- a reused key, and otherwise it opens a session for the same user.
register_again :
    (lib : Libraries) (cfg : Settings) (email password name : Text) (request : ℕ) (d again : Draw)
    (db : AccountDb)
    → conflicts lib cfg (normalize_email lib cfg email) request d db ≡ false
    → (password' name' : Text) (d' again' : Draw)
    → let e = normalize_email lib cfg email in
      let hash_of = λ (n : Text). lib.digest (e ++ 10 ∷ lib.strip n) in
      let user = new_user lib cfg e password (lib.strip name) d in
      let after = (register lib cfg email password name request d again db).1 in
      register lib cfg email password' name' request d' again' after ≡ (
        if not (same_text (hash_of name) (hash_of name'))
        then (denied email_already_registered, after)
        else if lib.verify (lib.hash d.salt password) password'
        then open_session lib cfg again' user (sign_in lib cfg again'.now) after
        else (denied idempotency_key_reused, after))
register_again lib cfg email password name request d again db free password' name' d' again' =
    known_register lib cfg email password' name' request d' again'
      (after lib cfg email password name request d again db free)
      (registered lib cfg email password name request d again db free)
      (key_row lib cfg email password name request d again db free)
      (registered_user lib cfg email password name request d again db free)
      (registered_key lib cfg email password name request d again db free)
