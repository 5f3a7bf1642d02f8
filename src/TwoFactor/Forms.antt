-- ===== src/TwoFactor/Forms.antt =====
-- judge/forms.py: the forms that check a code, a scratch code or a key.
use study_sys.Prelude.{
  ℕ, Bool, ◌&&◌, Option, none, some, List, [], ◌∷◌, String, str_eq, elem_text, if◌then◌else◌,
}
use study_sys.Bridge.Judge.{is_given}
use study_sys.Profile.{check_totp_code}
use study_sys.TwoFactor.{Account, Credential}

-- A code by its length and its form: six digits, sixteen letters and digits, or neither.
pub data Shape : Type 0 where
  totp_code scratch_code no_code : Shape

-- pyotp, webauthn, hmac and the settings: `digest` is the hexadecimal HMAC of the secret of a token,
-- and `has_rp_id` says that `WEBAUTHN_RP_ID` is set. `verify_assertion` is the new counter of a credential, by the
-- challenge and the response, or none for an exception.
pub record World : Type 0 where
  pub generate_otp : String → ℕ → String
  pub verify_totp : String → ℕ → String → Bool
  pub tolerance : ℕ
  pub shape : String → Shape
  pub verify_assertion : String → Credential → String → Option ℕ
  pub require_staff_2fa : Bool
  pub digest : String → String
  pub has_rp_id : Bool

-- The response of a key: its text is too long, is not JSON, or has an id and the rest.
pub data KeyResponse : Type 0 where
  too_long no_json : KeyResponse
  response : (id assertion : String) → KeyResponse

pub record LoginForm : Type 0 where
  pub code : Option String
  pub webauthn_response : Option KeyResponse

-- How `clean` ends: the form is valid and leaves the account so, it has an error, or an exception
-- escapes.
pub data Clean : Type 0 where
  valid : Account → Clean
  invalid raised : Clean

-- `profile.check_totp_code` of an account.
unfoldable pub check_code : World → ℕ → String → Account → Account × Bool
unfolding check_totp_code
check_code w now code a =
    let generate_otp : ℕ → String = (elim a.totp_key [
      | none ↦ λ t. ""
      | some k ↦ w.generate_otp k
    ]) in
    let (p, accepted) = check_totp_code generate_otp w.tolerance now code a.profile in
    (record a { profile = p }, accepted)

-- `list.remove`
unfoldable pub remove_text : String → List String → List String
remove_text x [] = []
remove_text x (y ∷ ys) = if str_eq y x then ys else y ∷ remove_text x ys

unfoldable pub find_credential : String → List Credential → Option Credential
find_credential cred_id [] = none
find_credential cred_id (c ∷ cs) =
    if str_eq c.cred_id cred_id then some c else find_credential cred_id cs

abbrev pub count_to : Credential → ℕ → List Credential → List Credential
count_to c n [] = []
count_to c n (d ∷ ds) =
    if str_eq d.cred_id c.cred_id then record d { counter = n } ∷ ds else d ∷ count_to c n ds

-- The branch of the keys, from the new counter on.
abbrev pub save_counter : Credential → Account → Option ℕ → Clean
save_counter c a none = invalid
save_counter c a (some n) = valid (record a { credentials = count_to c n a.credentials })

abbrev pub clean_assertion : World → String → String → Account → Option Credential → Clean
clean_assertion w challenge assertion a none = invalid
clean_assertion w challenge assertion a (some c) =
    save_counter c a (w.verify_assertion challenge c assertion)

unfoldable pub clean_key : World → Option String → KeyResponse → Account → Clean
unfolding find_credential is_given
clean_key w challenge too_long a = invalid
clean_key w challenge no_json a = if is_given challenge then raised else invalid
clean_key w none (response id assertion) a = invalid
clean_key w (some challenge) (response id assertion) a =
    if is_given (some challenge)
    then clean_assertion w challenge assertion a (find_credential id a.credentials)
    else invalid

-- The branch of the scratch codes, from `json.loads(profile.scratch_codes)` on.
abbrev pub use_scratch : String → Account → Option (List String) → Clean
use_scratch code a none = invalid
use_scratch code a (some codes) =
    if elem_text code codes
    then valid (record a { scratch_codes = some (remove_text code codes) })
    else invalid

-- The branch of the codes.
unfoldable pub clean_code : World → ℕ → String → Account → Clean
unfolding check_code remove_text
clean_code w now code a =
    let (b, accepted) = check_code w now code a in
    if a.is_totp_enabled && accepted then valid b else use_scratch code a a.scratch_codes

-- `TwoFactorLoginForm.clean`
abbrev pub clean_code_of : World → ℕ → Option String → Account → Clean
clean_code_of w now none a = invalid
clean_code_of w now (some code) a = if str_eq code "" then invalid else clean_code w now code a

abbrev pub clean_by :
    World → ℕ → Option String → Option String → Account → Option KeyResponse → Clean
clean_by w now challenge code a none = clean_code_of w now code a
clean_by w now challenge code a (some r) =
    if a.is_webauthn_enabled then clean_key w challenge r a else clean_code_of w now code a

unfoldable pub clean_login : World → ℕ → Option String → LoginForm → Account → Clean
unfolding clean_key clean_code
clean_login w now challenge form a = clean_by w now challenge form.code a form.webauthn_response

-- `TOTPForm.clean`: a scratch code is looked for but kept.
abbrev pub clean_scratch : String → Account → Option (List String) → Clean
clean_scratch code a none = raised
clean_scratch code a (some codes) = if elem_text code codes then valid a else invalid

abbrev pub clean_shape : World → ℕ → String → Account → Shape → Clean
clean_shape w now code a no_code = invalid
clean_shape w now code a totp_code =
    let (b, accepted) = check_code w now code a in if accepted then valid b else invalid
clean_shape w now code a scratch_code = clean_scratch code a a.scratch_codes

unfoldable pub clean_totp : World → ℕ → String → Account → Clean
unfolding check_code
clean_totp w now code a = clean_shape w now code a (w.shape code)

-- `TOTPEnableForm.clean`
abbrev pub clean_new : World → ℕ → String → String → Account → Shape → Clean
clean_new w now key code a totp_code = if w.verify_totp key now code then valid a else invalid
clean_new w now key code a _ = invalid

unfoldable pub clean_enable : World → ℕ → String → String → Account → Clean
clean_enable w now key code a = clean_new w now key code a (w.shape code)
