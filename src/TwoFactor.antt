-- ===== src/TwoFactor.antt =====
-- Two-factor authentication: the session and the account of a user, and the middleware of
-- judge/middleware.py that asks for the second factor. pyotp, webauthn and hmac are parameters.
pub mod Forms
pub mod Views
pub mod Guarded
pub mod Flags
pub mod Staff
pub mod Scratch
pub mod Tokens
use study_sys.Prelude.{
  ℕ, Bool, true, false, ◌&&◌, ◌||◌, not, Option, none, some, List, [], ◌∷◌, String, ◌==◌, str_eq,
  if◌then◌else◌,
}
use study_sys.Profile.{Profile}

-- A row of `WebAuthnCredential`.
pub record Credential : Type 0 where
  pub id : ℕ
  pub cred_id : String
  pub counter : ℕ

-- The user with its profile.
pub record Account : Type 0 where
  pub id : ℕ
  pub is_staff : Bool
  pub profile : Profile
  pub is_totp_enabled : Bool
  pub totp_key : Option String
  pub scratch_codes : Option (List String)
  pub is_webauthn_enabled : Bool
  pub credentials : List Credential
  pub api_token : Option String

-- The keys of the session: the user, '2fa_passed', 'password_pwned', 'totp_enable_key' and
-- 'webauthn_assert'.
pub record Session : Type 0 where
  pub user : Option ℕ
  pub passed : Bool
  pub password_pwned : Bool
  pub totp_enable_key : Option String
  pub webauthn_assert : Option String

-- The paths that the middleware tells apart.
pub data SitePath : Type 0 where
  login_2fa logout webauthn_assert password_change password_change_done static : SitePath
  admin other : SitePath

unfoldable pub has_2fa : Account → Bool
has_2fa a = a.is_totp_enabled || a.is_webauthn_enabled

-- The paths that are open before the second factor, and with a password that has leaked.
abbrev pub is_open : SitePath → Bool
is_open login_2fa = true
is_open logout = true
is_open webauthn_assert = true
is_open static = true
is_open _ = false

abbrev pub is_open_pwned : SitePath → Bool
is_open_pwned password_change = true
is_open_pwned password_change_done = true
is_open_pwned login_2fa = true
is_open_pwned logout = true
is_open_pwned static = true
is_open_pwned _ = false

-- `request.path.startswith(reverse('admin:index'))`
abbrev pub is_admin : SitePath → Bool
is_admin admin = true
is_admin _ = false

pub data Gate : Type 0 where
  passes to_login_2fa to_password_change : Gate

-- `DMOJLoginMiddleware` for a user who is signed in.
unfoldable pub login_middleware : Session → Account → SitePath → Gate
unfolding has_2fa
login_middleware s a path =
    if has_2fa a && not s.passed && not (is_open path)
    then to_login_2fa
    else if s.password_pwned && not (is_open_pwned path)
    then to_password_change
    else passes

-- The authorization header: none, one that `header_pattern` does not match, or the id and the secret
-- that it encodes.
pub data Header : Type 0 where
  no_header bad_header : Header
  token : (id : ℕ) (secret : String) → Header

pub data ApiReply : Type 0 where
  goes_on invalid_header admin_forbidden invalid_token : ApiReply

unfoldable pub find_account : ℕ → List Account → Option Account
find_account id [] = none
find_account id (a ∷ rest) = if a.id == id then some a else find_account id rest

-- `digest` is the hexadecimal HMAC of a secret.
abbrev pub has_token : (String → String) → String → Account → Bool
has_token digest secret a = elim a.api_token [
  | none ↦ false
  | some t ↦ not (str_eq t "") && str_eq (digest secret) t
]

abbrev pub admit_token : Session → Option Account → (Account → Bool) → Session × ApiReply
admit_token s none test = (s, invalid_token)
admit_token s (some a) test =
    if test a then (record s { passed = true }, goes_on) else (s, invalid_token)

-- `APIMiddleware`: it writes to the session of the request, whoever that session belongs to.
unfoldable pub api_middleware :
    (String → String) → List Account → (is_admin : Bool) → Header → Session → Session × ApiReply
unfolding find_account
api_middleware digest accounts is_admin no_header s = (s, goes_on)
api_middleware digest accounts is_admin bad_header s = (s, invalid_header)
api_middleware digest accounts is_admin (token id secret) s =
    if is_admin
    then (s, admin_forbidden)
    else admit_token s (find_account id accounts) (has_token digest secret)
