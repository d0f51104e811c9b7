-- ===== src/Accounts/Tests.antt =====
-- Accounts on concrete rows, with the identity as digest and hash, and a counter per key for Redis.
use globuy.Prelude.{
  same_text_refl, ℕ, suc, ◌+◌, ◌*◌, ◌≤◌, ◌≡◌, refl, true, false, none, some, [], ◌∷◌, count_if,
  same_text, if◌then◌else◌, arith,
}
use globuy.Sessions.Schema.{Text}
use globuy.Accounts.Schema.{
  enabled, User, AccountDb, IssuedSession, auth_required, login_rate_limited, Answer, granted,
  denied, Libraries, RedisClient, Settings, Draw,
}
use globuy.Accounts.Tables.{
  has_user_id, user_by_email, session_by_id, principal_of, new_session, session_row, split_dot,
  cookie, day,
}
use globuy.Accounts.Service.{register, authenticate, logout, sign_in}
use globuy.Accounts.Login.{login, change_password, is_login_allowed, clear_failed_logins}
use globuy.Accounts.Cookies.{login_authenticates}
use globuy.Accounts.Ended.{perform_all, logs_in, logged_out_for_good}
use globuy.Accounts.Password.{password_change_ends_sessions}
use globuy.Accounts.Limit.{
  counter, KeepsCount, Attempt, attempt_all, is_wrong, failed_logins_are_limited,
}

abbrev plain : Libraries
plain = record {
  strip = λ t. t;
  casefold = λ t. t;
  digest = λ t. t;
  hash = λ salt password. password;
  verify = λ hashed password. same_text hashed password;
  check_needs_rehash = λ hashed. false;
}

abbrev Counters : Type 0
Counters = Text → ℕ

abbrev counting : RedisClient Counters
counting = record {
  get = λ now key s. some (counter (s key));
  incr = λ now key s. (some (suc (s key)), λ k. if same_text k key then suc (s key) else s k);
  expire = λ now key seconds s. s;
  delete = λ now key s k. if same_text k key then 0 else s k;
}

counter_injective : (m n : ℕ) → some (counter m) ≡ some (counter n) → m ≡ n
counter_injective m n h = ground arith

counting-KeepsCount : KeepsCount counting
counting-KeepsCount = record {
  incr_law = λ key limit n now s soon h.
      let same : s key ≡ n = counter_injective (s key) n (h now soon) in
      rw (same_text_refl key, same) (refl, λ later before. refl);
  expire_law = λ key limit n now seconds s long h. h;
}

abbrev config : Settings
config = record {
  auth_session_days = 30;
  auth_login_max_attempts = 2;
  auth_login_window_seconds = 900;
  has_redis_url = true;
}

abbrev ann : User
ann = record {
  user_id = 1;
  email_normalized = 97 ∷ [];
  password_hash = 112 ∷ [];
  display_name = 65 ∷ [];
  status = enabled;
  version = 1;
  created_at = 0;
  updated_at = 0;
  last_login_at = none;
}

abbrev tables : AccountDb
tables = record { users = ann ∷ []; sessions = []; wishlists = []; keys = [] }

abbrev draw : Draw
draw = record {
  user_id = 9;
  wishlist_id = 9;
  session_id = 49 ∷ [];
  secret = 50 ∷ 46 ∷ [];
  csrf = 51 ∷ [];
  salt = 0;
  now = 1000;
}

abbrev no_failures : Counters
no_failures k = 0

abbrev signed_in : AccountDb
signed_in = record tables {
  users = sign_in plain config 1000 ann ∷ [];
  sessions = session_row plain config draw ann ∷ [];
}

abbrev issued : IssuedSession
issued = record {
  principal = principal_of ann (session_row plain config draw ann);
  cookie_value = cookie (49 ∷ []) (50 ∷ 46 ∷ []);
  csrf_token = 51 ∷ [];
  expires_at = 1000 + 30 * day;
}

abbrev after_login : Counters
after_login k = if same_text k (97 ∷ []) then 0 else 0

logs_ann_in :
    login plain config counting (97 ∷ []) (112 ∷ []) draw (tables, no_failures)
    ≡ (granted issued, (signed_in, after_login))
unfolding login is_login_allowed clear_failed_logins new_session user_by_email
logs_ann_in = refl

distinct : (u : ℕ) → count_if (has_user_id u) tables.users ≤ 1
distinct u = ground arith

login_authenticates_example :
    (authenticate plain config issued.cookie_value 5000 signed_in).0 ≡ granted issued.principal
login_authenticates_example =
    login_authenticates plain config counting (97 ∷ []) (112 ∷ []) draw tables signed_in no_failures
      after_login issued refl refl refl distinct logs_ann_in 5000 (omega arith)

splits : split_dot (49 ∷ 46 ∷ 50 ∷ []) ≡ some (49 ∷ [], 50 ∷ [])
unfolding split_dot
splits = refl

abbrev next_draw : Draw
next_draw = record draw { session_id = 52 ∷ []; now = 3000 }

logged_out_for_good_example :
    (authenticate plain config
      (49 ∷ 46 ∷ 50 ∷ [])
      4000
      (perform_all plain config counting
        (logs_in (97 ∷ []) (112 ∷ []) next_draw ∷ [])
        (logout plain config issued.principal 2000 signed_in, no_failures)).0).0
    ≡ denied auth_required
logged_out_for_good_example =
    logged_out_for_good plain config counting issued.principal 2000 signed_in no_failures
      (logs_in (97 ∷ []) (112 ∷ []) next_draw ∷ []) (refl, tt) (49 ∷ 46 ∷ 50 ∷ []) (50 ∷ []) 4000
      splits

abbrev changed : Answer ℕ × (AccountDb × Counters)
changed =
    change_password plain config counting (97 ∷ []) (113 ∷ []) next_draw (signed_in, no_failures)

changes_it : changed ≡ (granted 1, (changed.1.0, changed.1.1))
unfolding change_password clear_failed_logins user_by_email
changes_it = refl

has_session : session_by_id (49 ∷ []) signed_in ≡ some (session_row plain config draw ann)
unfolding session_by_id
has_session = refl

password_change_ends_sessions_example :
    (authenticate plain config
      (49 ∷ 46 ∷ 50 ∷ [])
      4000
      (perform_all plain config counting
        (logs_in (97 ∷ []) (113 ∷ []) next_draw ∷ [])
        (changed.1.0, changed.1.1)).0).0
    ≡ denied auth_required
password_change_ends_sessions_example =
    password_change_ends_sessions plain config counting (97 ∷ []) (113 ∷ []) next_draw signed_in
      changed.1.0 no_failures changed.1.1 1 changes_it (49 ∷ []) (session_row plain config draw ann)
      has_session refl (omega arith) (logs_in (97 ∷ []) (113 ∷ []) next_draw ∷ []) (refl, tt)
      (49 ∷ 46 ∷ 50 ∷ []) (50 ∷ []) 4000 splits

-- Two wrong passwords, and then the right one.
abbrev guess : ℕ → Attempt
guess c = record { password = c ∷ []; draw = draw }

wrong_guesses :
    (is_wrong plain config counting (user_by_email (97 ∷ []) tables) (65 ∷ []) ≡ true)
    × (is_wrong plain config counting (user_by_email (97 ∷ []) tables) (66 ∷ []) ≡ true)
unfolding is_wrong user_by_email
wrong_guesses = (refl, refl)

failed_logins_are_limited_example :
    let (db', s') =
      attempt_all plain config counting
        (97 ∷ [])
        (guess 65 ∷ guess 66 ∷ [])
        (tables, no_failures) in
    (db' ≡ tables)
    × (login plain config counting (97 ∷ []) (112 ∷ []) draw (db', s')
        ≡ (denied login_rate_limited, (db', s')))
failed_logins_are_limited_example =
    failed_logins_are_limited plain config counting counting-KeepsCount refl 5000 (97 ∷ []) tables
      no_failures (guess 65 ∷ guess 66 ∷ []) (λ now soon. refl)
      (wrong_guesses.0, omega arith, omega arith, (wrong_guesses.1, omega arith, omega arith, tt))
      (112 ∷ []) draw (omega arith)

-- A registration, sent again with another password.
abbrev first_draw : Draw
first_draw = record draw { user_id = 2; wishlist_id = 3 }

abbrev unknown : AccountDb
unknown = record tables { users = [] }

abbrev registered : AccountDb
registered =
    (register plain config (98 ∷ []) (112 ∷ []) (66 ∷ []) 100 first_draw next_draw unknown).1
