-- ===== src/Accounts/Schema.antt =====
-- The rows of the tables that app/auth/service.py uses (app/database/models.py), its dataclasses, and
-- the libraries that it calls.
use globuy.Prelude.{ℕ, Bool, Option, List}
use globuy.Sessions.Schema.{Text}

pub data UserStatus : Type 0 where
  enabled disabled : UserStatus

pub record User : Type 0 where
  pub user_id : ℕ
  pub email_normalized : Text
  pub password_hash : Text
  pub display_name : Text
  pub status : UserStatus
  pub version : ℕ
  pub created_at : ℕ
  pub updated_at : ℕ
  pub last_login_at : Option ℕ

pub record AuthSession : Type 0 where
  pub session_id : Text
  pub user_id : ℕ
  pub token_hash : Text
  pub csrf_token_hash : Text
  pub created_at : ℕ
  pub expires_at : ℕ
  pub last_seen_at : ℕ
  pub revoked_at : Option ℕ

pub record Wishlist : Type 0 where
  pub wishlist_id : ℕ
  pub user_id : ℕ
  pub default_slot : Option ℕ
  pub created_at : ℕ

-- An idempotency key of the operation "register".
pub record RegisterKey : Type 0 where
  pub user_id : ℕ
  pub client_request_id : ℕ
  pub request_hash : Text
  pub created_at : ℕ

pub record AccountDb : Type 0 where
  pub users : List User
  pub sessions : List AuthSession
  pub wishlists : List Wishlist
  pub keys : List RegisterKey

pub record Principal : Type 0 where
  pub user_id : ℕ
  pub email : Text
  pub display_name : Text
  pub session_id : Text
  pub csrf_token_hash : Text

pub record IssuedSession : Type 0 where
  pub principal : Principal
  pub cookie_value : Text
  pub csrf_token : Text
  pub expires_at : ℕ

-- The error codes; `integrity_error` is the IntegrityError of a taken key where nothing catches it.
pub data AuthError : Type 0 where
  auth_required csrf_failed invalid_credentials login_rate_limited : AuthError
  account_not_found registration_failed email_already_registered : AuthError
  idempotency_key_reused integrity_error : AuthError

pub data Answer (A : Type 0) : Type 0 where
  granted : A → Answer A
  denied : AuthError → Answer A

-- `str.strip`, `str.casefold`, `_digest` over hashlib, and argon2's PasswordHasher. `hash` takes the
-- salt that the library draws, and `verify` says no where the library raises.
pub record Libraries : Type 0 where
  pub strip : Text → Text
  pub casefold : Text → Text
  pub digest : Text → Text
  pub hash : (salt : ℕ) → (password : Text) → Text
  pub verify : (password_hash : Text) → (password : Text) → Bool
  pub check_needs_rehash : Text → Bool

-- The client of Redis: `none` where a call raises. `expire` and `delete` are not looked at.
pub record RedisClient (Redis : Type 0) : Type 0 where
  pub get : (now : ℕ) → Text → Redis → Option (Option ℕ)
  pub incr : (now : ℕ) → Text → Redis → Option ℕ × Redis
  pub expire : (now : ℕ) → Text → (seconds : ℕ) → Redis → Redis
  pub delete : (now : ℕ) → Text → Redis → Redis

pub record Settings : Type 0 where
  pub auth_session_days : ℕ
  pub auth_login_max_attempts : ℕ
  pub auth_login_window_seconds : ℕ
  pub has_redis_url : Bool

-- What one call draws: uuid4, token_urlsafe, the salt and the clock.
pub record Draw : Type 0 where
  pub user_id : ℕ
  pub wishlist_id : ℕ
  pub session_id : Text
  pub secret : Text
  pub csrf : Text
  pub salt : ℕ
  pub now : ℕ
