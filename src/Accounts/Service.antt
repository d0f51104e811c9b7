-- ===== src/Accounts/Service.antt =====
-- class AuthService of app/auth/service.py.
use globuy.Prelude.{
  ℕ, Bool, ◌&&◌, ◌||◌, not, Option, none, some, ◌∷◌, ◌++◌, ◌==◌, leb, any, find_first, update_where,
  same_text, same_option, is_some, if◌then◌else◌,
}
use globuy.Sessions.Schema.{Text}
use globuy.Accounts.Schema.{
  enabled, User, AuthSession, RegisterKey, AccountDb, Principal, IssuedSession, auth_required,
  csrf_failed, registration_failed, email_already_registered, idempotency_key_reused,
  integrity_error, Answer, granted, denied, Libraries, Settings, Draw,
}
use globuy.Accounts.Tables.{
  is_enabled, has_email, has_user_id, has_session_id, is_register_key, user_by_email, session_by_id,
  principal_of, new_session, add_session, is_session_taken, update_user, split_dot, is_blank,
}

module _ (lib : Libraries) (cfg : Settings) where
  abbrev pub normalize_email : Text → Text
  normalize_email e = lib.casefold (lib.strip e)

  -- A session for a user that has just proved the password.
  abbrev pub open_session :
      Draw → User → (User → User) → AccountDb → Answer IssuedSession × AccountDb
  open_session d u f db =
      let (row, issued) = new_session lib cfg d u in
      if is_session_taken d.session_id db
      then (denied integrity_error, db)
      else (granted issued, add_session row (update_user u.user_id f db))

  abbrev pub sign_in : ℕ → User → User
  sign_in now u = record u { last_login_at = some now; updated_at = now }

  abbrev pub recover_keyed :
      Text → Text → Draw → User → Option RegisterKey → AccountDb → Answer IssuedSession × AccountDb
  recover_keyed password request_hash d u none db = (denied email_already_registered, db)
  recover_keyed password request_hash d u (some k) db =
      if not (same_text k.request_hash request_hash)
      then (denied email_already_registered, db)
      else if lib.verify u.password_hash password
      then open_session d u (sign_in d.now) db
      else (denied idempotency_key_reused, db)

  abbrev pub recover_user :
      Text → ℕ → Text → Draw → Option User → AccountDb → Answer IssuedSession × AccountDb
  recover_user password request request_hash d none db = (denied registration_failed, db)
  recover_user password request request_hash d (some u) db =
      recover_keyed password request_hash d u
        (find_first (is_register_key u.user_id request) db.keys) db

  -- `_recover_registration`
  unfoldable pub recover_registration :
      Text → Text → ℕ → Text → Draw → AccountDb → Answer IssuedSession × AccountDb
  unfolding new_session
  recover_registration normalized password request request_hash d db =
      recover_user password request request_hash d (user_by_email normalized db) db

  abbrev pub new_user : Text → Text → Text → Draw → User
  new_user normalized password name d = record {
    user_id = d.user_id;
    email_normalized = normalized;
    password_hash = lib.hash d.salt password;
    display_name = name;
    status = enabled;
    version = 1;
    created_at = d.now;
    updated_at = d.now;
    last_login_at = some d.now;
  }

  -- What makes the insertion of the four rows fail.
  abbrev pub conflicts : Text → ℕ → Draw → AccountDb → Bool
  conflicts normalized request d db =
      any (has_user_id d.user_id) db.users
      || any (has_email normalized) db.users
      || any
          (λ x.
            x.wishlist_id == d.wishlist_id
            || x.user_id == d.user_id && same_option x.default_slot (some 1))
          db.wishlists
      || is_session_taken d.session_id db
      || any (is_register_key d.user_id request) db.keys

  -- `again` is what a recovery draws.
  unfoldable pub register :
      Text → Text → Text → ℕ → Draw → Draw → AccountDb → Answer IssuedSession × AccountDb
  unfolding recover_registration new_session
  register email password display_name request d again db =
      let normalized = normalize_email email in
      let name = lib.strip display_name in
      let request_hash = lib.digest (normalized ++ 10 ∷ name) in
      let user = new_user normalized password name d in
      let (row, issued) = new_session lib cfg d user in
      if conflicts normalized request d db
      then recover_registration normalized password request request_hash again db
      else (
        granted issued,
        record {
          users = user ∷ db.users;
          sessions = row ∷ db.sessions;
          wishlists =
              record {
                wishlist_id = d.wishlist_id;
                user_id = d.user_id;
                default_slot = some 1;
                created_at = d.now;
              }
              ∷ db.wishlists;
          keys =
              record {
                user_id = d.user_id;
                client_request_id = request;
                request_hash = request_hash;
                created_at = d.now;
              }
              ∷ db.keys;
        },
      )

  abbrev pub is_usable : ℕ → Text → AuthSession → User → Bool
  is_usable now secret s u =
      not (is_some s.revoked_at)
      && not (leb s.expires_at now)
      && is_enabled u.status
      && same_text s.token_hash (lib.digest secret)

  abbrev pub see : Text → ℕ → AccountDb → AccountDb
  see id now db = record db {
    sessions = update_where (has_session_id id) (λ s. record s { last_seen_at = now }) db.sessions;
  }

  -- The row of the join, checked.
  abbrev pub check_row :
      ℕ → Text → Option AuthSession → Option User → AccountDb → Answer Principal × AccountDb
  check_row now secret (some s) (some u) db =
      if is_usable now secret s u
      then (granted (principal_of u s), see s.session_id now db)
      else (denied auth_required, db)
  check_row now secret _ _ db = (denied auth_required, db)

  abbrev pub owner_of : Option AuthSession → AccountDb → Option User
  owner_of none db = none
  owner_of (some s) db = find_first (has_user_id s.user_id) db.users

  abbrev pub authenticate_parts :
      Option (Text × Text) → ℕ → AccountDb → Answer Principal × AccountDb
  authenticate_parts none now db = (denied auth_required, db)
  authenticate_parts (some (id, secret)) now db =
      if is_blank id || is_blank secret
      then (denied auth_required, db)
      else check_row now secret (session_by_id id db) (owner_of (session_by_id id db) db) db

  -- No cookie is the empty text.
  unfoldable pub authenticate : Text → ℕ → AccountDb → Answer Principal × AccountDb
  unfolding split_dot session_by_id
  authenticate cookie_value now db = authenticate_parts (split_dot cookie_value) now db

  abbrev pub revoke : ℕ → AuthSession → AuthSession
  revoke now s = if is_some s.revoked_at then s else record s { revoked_at = some now }

  unfoldable pub logout : Principal → ℕ → AccountDb → AccountDb
  logout p now db = record db {
    sessions = update_where (has_session_id p.session_id) (revoke now) db.sessions;
  }

  unfoldable pub verify_csrf : Principal → Text → Text → Answer (Unit {0})
  verify_csrf p cookie_token header_token =
      if is_blank cookie_token
        || is_blank header_token
        || not (same_text cookie_token header_token)
        || not (same_text p.csrf_token_hash (lib.digest header_token))
      then denied csrf_failed
      else granted tt
