-- ===== src/Accounts/Tables.antt =====
-- The queries and writes of app/auth/service.py.
use globuy.Prelude.{
  ℕ, ◌+◌, ◌*◌, Bool, true, false, ◌&&◌, Option, none, some, [], ◌∷◌, ◌++◌, ◌==◌, any, find_first,
  update_where, same_text, if◌then◌else◌,
}
use globuy.Sessions.Schema.{Text}
use globuy.Accounts.Schema.{
  UserStatus, enabled, disabled, User, AuthSession, RegisterKey, AccountDb, Principal,
  IssuedSession, Libraries, Settings, Draw,
}

abbrev pub is_enabled : UserStatus → Bool
is_enabled enabled = true
is_enabled disabled = false

abbrev pub has_email : Text → User → Bool
has_email e x = same_text x.email_normalized e

abbrev pub has_user_id : ℕ → User → Bool
has_user_id u x = x.user_id == u

abbrev pub has_session_id : Text → AuthSession → Bool
has_session_id i x = same_text x.session_id i

abbrev pub is_register_key : ℕ → ℕ → RegisterKey → Bool
is_register_key u request x = x.user_id == u && x.client_request_id == request

unfoldable pub user_by_email : Text → AccountDb → Option User
user_by_email e db = find_first (has_email e) db.users

unfoldable pub session_by_id : Text → AccountDb → Option AuthSession
session_by_id i db = find_first (has_session_id i) db.sessions

-- The principal of a session of a user.
abbrev pub principal_of : User → AuthSession → Principal
principal_of u s = record {
  user_id = u.user_id;
  email = u.email_normalized;
  display_name = u.display_name;
  session_id = s.session_id;
  csrf_token_hash = s.csrf_token_hash;
}

abbrev pub day : ℕ
day = 24 * 60 * 60 * 1000000

abbrev pub session_row : Libraries → Settings → Draw → User → AuthSession
session_row lib cfg d u = record {
  session_id = d.session_id;
  user_id = u.user_id;
  token_hash = lib.digest d.secret;
  csrf_token_hash = lib.digest d.csrf;
  created_at = d.now;
  expires_at = d.now + cfg.auth_session_days * day;
  last_seen_at = d.now;
  revoked_at = none;
}

-- `f"{session_id}.{secret}"`
abbrev pub cookie : Text → Text → Text
cookie id secret = id ++ 46 ∷ secret

unfoldable pub new_session : Libraries → Settings → Draw → User → AuthSession × IssuedSession
new_session lib cfg d u =
    let row = session_row lib cfg d u in
    (
      row,
      record {
        principal = principal_of u row;
        cookie_value = cookie d.session_id d.secret;
        csrf_token = d.csrf;
        expires_at = row.expires_at;
      },
    )

abbrev pub add_session : AuthSession → AccountDb → AccountDb
add_session x db = record db { sessions = x ∷ db.sessions }

abbrev pub is_session_taken : Text → AccountDb → Bool
is_session_taken i db = any (has_session_id i) db.sessions

abbrev pub update_user : ℕ → (User → User) → AccountDb → AccountDb
update_user u f db = record db { users = update_where (has_user_id u) f db.users }

-- `cookie_value.split(".", 1)`, where there is a dot.
unfoldable pub split_dot : Text → Option (Text × Text)
split_dot [] = none
split_dot (c ∷ cs) =
    let rest = split_dot cs in
    if c == 46 then some ([], cs) else elim rest [ none ↦ none | some (a, b) ↦ some (c ∷ a, b) ]

abbrev pub is_blank : Text → Bool
is_blank [] = true
is_blank (c ∷ cs) = false
