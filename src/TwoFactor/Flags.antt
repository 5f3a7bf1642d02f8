-- ===== src/TwoFactor/Flags.antt =====
-- What a valid form leaves of the settings of the account.
use study_sys.Prelude.{
  elem_text, str_eq, ℕ, ◌&&◌, Option, none, some, List, ◌≡◌, refl, String, if_split,
}
use study_sys.Bridge.Judge.{is_given}
use study_sys.TwoFactor.{Account, Credential}
use study_sys.TwoFactor.Forms.{
  use_scratch, response, clean_new, Shape, save_counter, clean_scratch, clean_by, World,
  KeyResponse, too_long, no_json, response, Clean, valid, check_code, clean_key, totp_code,
  scratch_code, no_code, Shape, clean_shape, clean_code, clean_code_of, clean_assertion,
  find_credential,
}

-- What a valid form leaves.
abbrev pub Keeps : Account → Clean → Type 0
Keeps a (valid b) =
    (b.is_staff ≡ a.is_staff)
    × (b.is_totp_enabled ≡ a.is_totp_enabled)
    × (b.is_webauthn_enabled ≡ a.is_webauthn_enabled)
Keeps a _ = Unit

use_scratch-Keeps :
    (code : String) (a : Account) (codes : Option (List String))
    → Keeps a (use_scratch code a codes)
use_scratch-Keeps code a none = tt
use_scratch-Keeps code a (some codes) =
    if_split (Keeps a) (elem_text code codes) (λ _. (refl, refl, refl)) (λ _. tt)

clean_code-Keeps :
    (w : World) (now : ℕ) (code : String) (a : Account) → Keeps a (clean_code w now code a)
unfolding clean_code check_code
clean_code-Keeps w now code a =
    if_split (Keeps a) (a.is_totp_enabled && (check_code w now code a).1) (λ _. (refl, refl, refl))
      (λ _. use_scratch-Keeps code a a.scratch_codes)

save_counter-Keeps : (c : Credential) (a : Account) (n : Option ℕ) → Keeps a (save_counter c a n)
save_counter-Keeps c a none = tt
save_counter-Keeps c a (some n) = (refl, refl, refl)

clean_assertion-Keeps :
    (w : World) (challenge assertion : String) (a : Account) (c : Option Credential)
    → Keeps a (clean_assertion w challenge assertion a c)
clean_assertion-Keeps w challenge assertion a none = tt
clean_assertion-Keeps w challenge assertion a (some c) =
    save_counter-Keeps c a (w.verify_assertion challenge c assertion)

clean_key-Keeps :
    (w : World) (challenge : Option String) (r : KeyResponse) (a : Account)
    → Keeps a (clean_key w challenge r a)
unfolding clean_key
clean_key-Keeps w challenge too_long a = tt
clean_key-Keeps w challenge no_json a = if_split (Keeps a) (is_given challenge) (λ _. tt) (λ _. tt)
clean_key-Keeps w none (response id assertion) a = tt
clean_key-Keeps w (some challenge) (response id assertion) a =
    if_split (Keeps a) (is_given (some challenge))
      (λ _. clean_assertion-Keeps w challenge assertion a (find_credential id a.credentials))
      (λ _. tt)

clean_code_of-Keeps :
    (w : World) (now : ℕ) (code : Option String) (a : Account)
    → Keeps a (clean_code_of w now code a)
clean_code_of-Keeps w now none a = tt
clean_code_of-Keeps w now (some code) a =
    if_split (Keeps a) (str_eq code "") (λ _. tt) (λ _. clean_code-Keeps w now code a)

pub clean_by-Keeps :
    (w : World) (now : ℕ) (challenge code : Option String) (a : Account) (o : Option KeyResponse)
    → Keeps a (clean_by w now challenge code a o)
clean_by-Keeps w now challenge code a none = clean_code_of-Keeps w now code a
clean_by-Keeps w now challenge code a (some r) =
    if_split (Keeps a) a.is_webauthn_enabled (λ _. clean_key-Keeps w challenge r a)
      (λ _. clean_code_of-Keeps w now code a)

clean_scratch-Keeps :
    (code : String) (a : Account) (codes : Option (List String))
    → Keeps a (clean_scratch code a codes)
clean_scratch-Keeps code a none = tt
clean_scratch-Keeps code a (some codes) =
    if_split (Keeps a) (elem_text code codes) (λ _. (refl, refl, refl)) (λ _. tt)

pub clean_shape-Keeps :
    (w : World) (now : ℕ) (code : String) (a : Account) (s : Shape)
    → Keeps a (clean_shape w now code a s)
unfolding check_code
clean_shape-Keeps w now code a no_code = tt
clean_shape-Keeps w now code a totp_code =
    if_split (Keeps a) (check_code w now code a).1 (λ _. (refl, refl, refl)) (λ _. tt)
clean_shape-Keeps w now code a scratch_code = clean_scratch-Keeps code a a.scratch_codes

pub clean_new-Keeps :
    (w : World) (now : ℕ) (key code : String) (a : Account) (s : Shape)
    → Keeps a (clean_new w now key code a s)
clean_new-Keeps w now key code a totp_code =
    if_split (Keeps a) (w.verify_totp key now code) (λ _. (refl, refl, refl)) (λ _. tt)
clean_new-Keeps w now key code a scratch_code = tt
clean_new-Keeps w now key code a no_code = tt
