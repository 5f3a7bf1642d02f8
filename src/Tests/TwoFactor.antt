-- ===== src/Tests/TwoFactor.antt =====
-- A member of the staff with timecodes, two scratch codes and no key.
use study_sys.Prelude.{
  ◌≡◌, ◌+◌, refl, true, false, none, some, [], ◌∷◌, String, str_eq, if◌then◌else◌,
}
use study_sys.Profile.{accept, find_timecode, min_timecode}
use study_sys.TwoFactor.{no_header, Header, Account, other, has_2fa, find_account, token}
use study_sys.TwoFactor.Forms.{World, totp_code, clean_code, remove_text}
use study_sys.TwoFactor.Views.{
  view, State, Request, visits, passes_2fa, disables, run, serve, served, redirected,
}
use study_sys.TwoFactor.Guarded.{none_accepted}
use study_sys.TwoFactor.Scratch.{copies, clean_code-copies}
use study_sys.TwoFactor.Tokens.{serve_token}
use study_sys.Tests.Profile.{member, parity}

abbrev world : World
world = record {
  generate_otp = λ key. parity;
  verify_totp = λ key now code. str_eq code (parity now);
  tolerance = 0;
  shape = λ code. totp_code;
  verify_assertion = λ challenge c r. none;
  require_staff_2fa = true;
  digest = λ x. "digest of secret";
  has_rp_id = true;
}

abbrev teacher : Account
teacher = record {
  id = 12;
  is_staff = true;
  profile = member;
  is_totp_enabled = true;
  totp_key = some "key";
  scratch_codes = some ("AAAA" ∷ "BBBB" ∷ []);
  is_webauthn_enabled = false;
  credentials = [];
  api_token = some "digest of secret";
}

abbrev fresh : State
fresh = record {
  session = record {
    user = some 12;
    passed = false;
    password_pwned = false;
    totp_enable_key = none;
    webauthn_assert = none;
  };
  account = teacher;
  others = record teacher { id = 13; is_totp_enabled = false } ∷ [];
}

abbrev tries : String → Header × Request
tries code = (no_header, passes_2fa 41 (record { code = some code; webauthn_response = none }))

program : Unit {0}
unfolding run serve none_accepted find_account has_2fa clean_code accept find_timecode min_timecode
program = tt

accepted_code :
    (serve world no_header (visits other) (run world (tries "odd" ∷ []) fresh)).1 ≡ served
unfolding program
accepted_code = refl

staff_keep :
    (serve world no_header (disables 43 "odd") (run world (tries "odd" ∷ []) fresh)).1 ≡ redirected
unfolding program
staff_keep = refl

-- A token of an account that is not there.
abbrev guess : Header × Request
guess = (token 99 "secret", visits other)

clean_code-copies_example :
    (record teacher { scratch_codes = some ("BBBB" ∷ []) }
      ≡ record teacher { scratch_codes = some (remove_text "AAAA" ("AAAA" ∷ "BBBB" ∷ [])) })
    × ((other_code : String)
        → copies other_code ("AAAA" ∷ "BBBB" ∷ [])
          ≡ copies other_code (remove_text "AAAA" ("AAAA" ∷ "BBBB" ∷ []))
            + (if str_eq "AAAA" other_code then 1 else 0))
unfolding program
clean_code-copies_example =
    clean_code-copies world 41 "AAAA" teacher
      (record teacher { scratch_codes = some ("BBBB" ∷ []) }) ("AAAA" ∷ "BBBB" ∷ []) refl refl refl

-- The token of the user 13, sent with the session of the teacher.
serve_token_example :
    let τ = (serve world (token 13 "secret") (visits other) fresh).0 in
    (τ.account ≡ teacher)
    × (τ.session.passed ≡ true)
    × (serve world no_header (disables 43 "odd") τ ≡ view world (disables 43 "odd") τ)
unfolding find_account
serve_token_example =
    serve_token world 13 "secret" other (disables 43 "odd") fresh
      (record teacher { id = 13; is_totp_enabled = false }) refl refl refl refl refl
