-- ===== src/TwoFactor/Views.antt =====
-- judge/views/two_factor.py and judge/signals.py: the requests in the session of a user that is
-- signed in, each behind the middleware.
use study_sys.Prelude.{
  ℕ, Bool, true, false, ◌&&◌, ◌||◌, not, Option, none, some, List, [], ◌∷◌, String, ◌==◌, leb,
  length, any, if◌then◌else◌,
}
use study_sys.Bridge.Judge.{is_given}
use study_sys.TwoFactor.{
  is_admin, ApiReply, token, Header, api_middleware, find_account, Credential, Account, Session,
  SitePath, login_2fa, webauthn_assert, other, has_2fa, Gate, passes, to_login_2fa,
  to_password_change, login_middleware, no_header, bad_header, goes_on, invalid_header,
  admin_forbidden, invalid_token,
}
use study_sys.TwoFactor.Forms.{
  World, LoginForm, Clean, valid, invalid, raised, clean_login, clean_totp, clean_enable,
}

-- The session, the account of its user, and the other accounts, which a token can name.
pub record State : Type 0 where
  pub session : Session
  pub account : Account
  pub others : List Account

-- A request, with the timecode at which it comes; `visits` reads a page. Logging in and out, which
-- Django does, are not among them. `challenges` is the GET of `WebAuthnAttestView`,
-- and `opens` the GET of `TOTPEnableView`, with the key and the scratch codes that it draws.
pub data Request : Type 0 where
  visits : SitePath → Request
  passes_2fa : (now : ℕ) → LoginForm → Request
  challenges : String → Request
  opens : (is_refresh : Bool) (key : String) (codes : List String) → Request
  enables : (is_refresh : Bool) (now : ℕ) (code : String) → Request
  disables : (now : ℕ) (code : String) → Request
  deletes_key : (id : ℕ) → Request

pub data Reply : Type 0 where
  served redirected form_error bad_request unauthorized forbidden not_found failed : Reply
  asks_2fa asks_password : Reply

abbrev pub path_of : Request → SitePath
path_of (visits path) = path
path_of (passes_2fa now form) = login_2fa
path_of (challenges challenge) = webauthn_assert
path_of _ = other

abbrev pub set_session : (Session → Session) → State → State
set_session f σ = record σ { session = f σ.session }

abbrev pub set_account : (Account → Account) → State → State
set_account f σ = record σ { account = f σ.account }

-- `TwoFactorLoginView.check_skip` and `form_valid`.
unfoldable pub skips_login : State → Bool
unfolding has_2fa
skips_login σ = not (has_2fa σ.account) || σ.session.passed

abbrev pub pass : Session → Session
pass s = record s { passed = true }

abbrev pub after_login : Clean → State → State × Reply
after_login (valid a) σ = (record σ { session = pass σ.session; account = a }, redirected)
after_login invalid σ = (σ, form_error)
after_login raised σ = (σ, failed)

unfoldable pub post_login : World → ℕ → LoginForm → State → State × Reply
unfolding skips_login clean_login
post_login w now form σ =
    if skips_login σ
    then (σ, redirected)
    else after_login (clean_login w now σ.session.webauthn_assert form σ.account) σ

-- `TOTPEnableView.check_skip`, and that of `TOTPRefreshView`.
abbrev pub skips_enable : Bool → Account → Bool
skips_enable is_refresh a = if is_refresh then not a.is_totp_enabled else a.is_totp_enabled

abbrev pub set_key : String → Session → Session
set_key key s = elim s.totp_enable_key [
  | none ↦ record s { totp_enable_key = some key }
  | some k ↦ s
]

-- `if not profile.scratch_codes`
abbrev pub codes_or : List String → Option (List String) → Option (List String)
codes_or codes none = some codes
codes_or codes (some c) = some c

abbrev pub set_codes : List String → Account → Account
set_codes codes a = record a { scratch_codes = codes_or codes a.scratch_codes }

abbrev pub get_enable : Bool → String → List String → State → State × Reply
get_enable is_refresh key codes σ =
    if skips_enable is_refresh σ.account
    then (σ, redirected)
    else (set_account (set_codes codes) (set_session (set_key key) σ), served)

abbrev pub after_enable : String → Clean → State → State × Reply
after_enable key (valid a) σ = (
  record σ {
    session = record (pass σ.session) { totp_enable_key = none };
    account = record a { is_totp_enabled = true; totp_key = some key };
  },
  redirected,
)
after_enable key invalid σ = (σ, form_error)
after_enable key raised σ = (σ, failed)

-- `TOTPEnableView.post`: a session without the key raises a KeyError.
abbrev pub enable_with : World → ℕ → String → State → Option String → State × Reply
enable_with w now code σ none = (σ, failed)
enable_with w now code σ (some key) =
    if not (is_given (some key))
    then (σ, bad_request)
    else after_enable key (clean_enable w now key code σ.account) σ

unfoldable pub post_enable : World → Bool → ℕ → String → State → State × Reply
unfolding clean_enable is_given
post_enable w is_refresh now code σ =
    if skips_enable is_refresh σ.account
    then (σ, redirected)
    else enable_with w now code σ σ.session.totp_enable_key

-- `TOTPDisableView`
unfoldable pub skips_disable : World → Account → Bool
skips_disable w a =
    if not a.is_totp_enabled
    then true
    else w.require_staff_2fa && a.is_staff && not a.is_webauthn_enabled

abbrev pub disable_totp : Account → Account
disable_totp a = record a { is_totp_enabled = false; totp_key = none; scratch_codes = none }

abbrev pub after_disable : Clean → State → State × Reply
after_disable (valid a) σ = (record σ { account = disable_totp a }, redirected)
after_disable invalid σ = (σ, form_error)
after_disable raised σ = (σ, failed)

unfoldable pub post_disable : World → ℕ → String → State → State × Reply
unfolding clean_totp skips_disable
post_disable w now code σ =
    if skips_disable w σ.account
    then (σ, redirected)
    else after_disable (clean_totp w now code σ.account) σ

-- `credential.delete()`, then the signal `webauthn_delete`.
unfoldable pub remove_credential : ℕ → List Credential → List Credential
remove_credential id [] = []
remove_credential id (c ∷ cs) = if c.id == id then cs else c ∷ remove_credential id cs

abbrev pub delete_credential : ℕ → Account → Account
delete_credential id a =
    let rest = remove_credential id a.credentials in
    record a {
      credentials = rest;
      is_webauthn_enabled = if length rest == 0 then false else a.is_webauthn_enabled;
    }

-- `WebAuthnView.dispatch`, behind which the views of keys answer.
abbrev pub dispatch_keys : World → State → State × Reply → State × Reply
dispatch_keys w σ answer = if not w.has_rp_id then (σ, not_found) else answer

abbrev pub get_challenge : String → State → State × Reply
get_challenge challenge σ =
    (set_session (λ s. record s { webauthn_assert = some challenge }) σ, served)

unfoldable pub post_delete : World → ℕ → State → State × Reply
unfolding remove_credential
post_delete w id σ =
    let a = σ.account in
    if not (any (λ c. c.id == id) a.credentials)
    then (σ, not_found)
    else if w.require_staff_2fa
        && a.is_staff
        && leb (length a.credentials) 1
        && not a.is_totp_enabled
    then (σ, bad_request)
    else (set_account (delete_credential id) σ, served)

unfoldable pub view : World → Request → State → State × Reply
unfolding post_login post_enable post_disable post_delete
view w (visits path) σ = (σ, served)
view w (passes_2fa now form) σ = post_login w now form σ
view w (challenges challenge) σ = dispatch_keys w σ (get_challenge challenge σ)
view w (opens is_refresh key codes) σ = get_enable is_refresh key codes σ
view w (enables is_refresh now code) σ = post_enable w is_refresh now code σ
view w (disables now code) σ = post_disable w now code σ
view w (deletes_key id) σ = dispatch_keys w σ (post_delete w id σ)

-- `DMOJLoginMiddleware`, then the view.
abbrev pub gated : Gate → State → State × Reply → State × Reply
gated passes σ answer = answer
gated to_login_2fa σ answer = (σ, asks_2fa)
gated to_password_change σ answer = (σ, asks_password)

unfoldable pub login_view : World → Request → State → State × Reply
unfolding login_middleware view
login_view w r σ = gated (login_middleware σ.session σ.account (path_of r)) σ (view w r σ)

-- A request with a token that `APIMiddleware` has accepted is one of the owner of the token, in the
-- session that comes with the request.
unfoldable pub update_account : Account → List Account → List Account
update_account b [] = []
update_account b (a ∷ rest) = (if a.id == b.id then b else a) ∷ update_account b rest

abbrev pub give_back : Account → State × Reply → State × Reply
give_back a (τ, reply) =
    (record τ { account = a; others = update_account τ.account τ.others }, reply)

abbrev pub act_as_other : Option Account → (State → State × Reply) → State → State × Reply
act_as_other none f σ = (σ, unauthorized)
act_as_other (some b) f σ = give_back σ.account (f (record σ { account = b }))

unfoldable pub act_as : Header → (State → State × Reply) → State → State × Reply
unfolding find_account update_account
act_as no_header f σ = f σ
act_as bad_header f σ = f σ
act_as (token id secret) f σ =
    if σ.account.id == id then f σ else act_as_other (find_account id σ.others) f σ

-- What follows `APIMiddleware`.
abbrev pub after_api : World → Header → Request → State → Session × ApiReply → State × Reply
after_api w h r σ (s, goes_on) = act_as h (login_view w r) (set_session (λ _. s) σ)
after_api w h r σ (s, invalid_header) = (σ, bad_request)
after_api w h r σ (s, admin_forbidden) = (σ, forbidden)
after_api w h r σ (s, invalid_token) = (σ, unauthorized)

abbrev pub check_token : World → Header → Request → State → Session × ApiReply
check_token w h r σ =
    api_middleware w.digest (σ.account ∷ σ.others) (is_admin (path_of r)) h σ.session

unfoldable pub serve : World → Header → Request → State → State × Reply
unfolding api_middleware login_view act_as
serve w h r σ = after_api w h r σ (check_token w h r σ)

-- Requests with their headers, one after the other.
unfoldable pub run : World → List (Header × Request) → State → State
unfolding serve
run w [] σ = σ
run w ((h, r) ∷ rs) σ = run w rs (serve w h r σ).0
