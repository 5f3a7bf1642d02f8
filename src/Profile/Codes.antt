-- ===== src/Profile/Codes.antt =====
-- `check_totp_code`: which codes are accepted.
use study_sys.Prelude.{
  ℕ, ◌≡◌, ◌≢◌, ◌+◌, ◌≤◌, ◌<◌, zero, suc, true, false, some, none, arith, Option-cases, inl, inr,
  String, str_eq, max, ◌-◌,
}
use study_sys.Profile.{Profile, find_timecode, accept, min_timecode, check_totp_code}

find_timecode-some :
    (generate_otp : ℕ → String) (code : String) (t n u : ℕ)
    → find_timecode generate_otp code t n ≡ some u
    → (t ≤ u) × (u < t + n) × (str_eq code (generate_otp u) ≡ true)
unfolding find_timecode
find_timecode-some g code t zero u e = ground (arith, e)
find_timecode-some g code t (suc n) u e = ground (arith, e, find_timecode-some g code (t + 1) n u)

find_timecode_finds :
    (generate_otp : ℕ → String) (code : String) (t n u : ℕ)
    → t ≤ u
    → u < t + n
    → str_eq code (generate_otp u) ≡ true
    → find_timecode generate_otp code t n ≢ none
unfolding find_timecode
find_timecode_finds g code t zero u le lt same = omega arith
find_timecode_finds g code t (suc n) u le lt same =
    ground (arith, le, lt, same, find_timecode_finds g code (t + 1) n u)

-- A code that is accepted is the code of a timecode within the tolerance of the current one and
-- later than the last one accepted, and that timecode becomes the last one: a code that is sent
-- again needs a later timecode. A code that is not accepted changes nothing.
pub check_totp_code_sound :
    (generate_otp : ℕ → String) (tolerance now : ℕ) (code : String) (p : Profile)
    → let after = check_totp_code generate_otp tolerance now code p in
      let t = after.0.last_totp_timecode in
      (after.1 ≡ true
        → (p.last_totp_timecode < t)
          × (t ≤ now + tolerance)
          × (now ≤ t + tolerance)
          × (str_eq code (generate_otp t) ≡ true))
      × (after.1 ≡ false → after.0 ≡ p)
unfolding check_totp_code accept min_timecode
check_totp_code_sound g tolerance now code p =
    let first = max (p.last_totp_timecode + 1) (now - tolerance) in
    let n = now + tolerance + 1 - first in
    elim (Option-cases (find_timecode g code first n)) [
      | inl e ↦ ground (arith, e)
      | inr (u, e) ↦ ground (arith, e, find_timecode-some g code first n u e)
    ]

-- The code of a timecode that is within the tolerance of the current one and later than the last
-- one accepted is accepted.
pub check_totp_code_complete :
    (generate_otp : ℕ → String) (tolerance now : ℕ) (code : String) (p : Profile) (t : ℕ)
    → p.last_totp_timecode < t
    → t ≤ now + tolerance
    → now ≤ t + tolerance
    → str_eq code (generate_otp t) ≡ true
    → (check_totp_code generate_otp tolerance now code p).1 ≡ true
unfolding check_totp_code accept min_timecode
check_totp_code_complete g tolerance now code p t later le ge same =
    let first = max (p.last_totp_timecode + 1) (now - tolerance) in
    let n = now + tolerance + 1 - first in
    elim (Option-cases (find_timecode g code first n)) [
      | inl e ↦
          ground (arith, find_timecode_finds g code first n t (omega arith) (omega arith) same e)
      | inr (u, e) ↦ ground (arith, e)
    ]
