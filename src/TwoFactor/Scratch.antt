-- ===== src/TwoFactor/Scratch.antt =====
-- A scratch code is used up by a login.
use study_sys.Prelude.{
  inl, Bool-cases, ◌∙◌, sym, ap, ℕ, ◌+◌, true, false, some, List, [], ◌∷◌, ◌≡◌, arith, String,
  str_eq, count, elem_text, inl, inr, if◌then◌else◌, eq_iff, ◌&&◌,
}
use study_sys.TwoFactor.{Account}
use study_sys.TwoFactor.Forms.{use_scratch, World, valid, remove_text, clean_code, check_code}

abbrev pub copies : String → List String → ℕ
copies code codes = count (λ c. str_eq c code) codes

remove_text-copies :
    (code other : String) (codes : List String)
    → elem_text code codes ≡ true
    → copies other codes
      ≡ copies other (remove_text code codes) + (if str_eq code other then 1 else 0)
unfolding remove_text
remove_text-copies code other [] e = ground (arith, e)
remove_text-copies code other (c ∷ codes) e = ground (
  arith,
  e,
  eq_iff c code,
  eq_iff c other,
  eq_iff code other,
  remove_text-copies code other codes,
)

-- When the form takes a code that is not one of the timecodes, the code was a scratch code: one copy
-- of it goes, and the other scratch codes and all else of the account stay.
pub clean_code-copies :
    (w : World) (now : ℕ) (code : String) (a b : Account) (codes : List String)
    → (a.is_totp_enabled && (check_code w now code a).1) ≡ false
    → a.scratch_codes ≡ some codes
    → clean_code w now code a ≡ valid b
    → (b ≡ record a { scratch_codes = some (remove_text code codes) })
      × ((other : String)
          → copies other codes
            ≡ copies other (remove_text code codes) + (if str_eq code other then 1 else 0))
unfolding clean_code
clean_code-copies w now code a b codes wrong held e =
    let used : use_scratch code a (some codes) ≡ valid b =
      ap (use_scratch code a) (sym held) ∙ (rw (wrong, clean_code) at e) in
    elim (Bool-cases (elem_text code codes)) [
      | inl present ↦
          (ground (arith, used, present), λ other. remove_text-copies code other codes present)
      | inr absent ↦ absurd (ground (arith, used, absent))
    ]
