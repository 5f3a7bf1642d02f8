-- ===== src/TwoFactor/Staff.antt =====
-- With the setting that staff must have a second factor, no request takes the last one away.
use study_sys.Prelude.{Bool, true, ◌&&◌, ◌||◌, ◌≡◌}
use study_sys.TwoFactor.{
  Header, find_account, Header, find_account, Header, find_account, Header, find_account, Header,
  find_account, Header, find_account, Account,
}
use study_sys.TwoFactor.Forms.{World}
use study_sys.TwoFactor.Views.{State}
use study_sys.TwoFactor.Guarded.{login_view_keeps, login_view_keeps}

-- A member of the staff with a second factor.
abbrev pub is_guarded : Account → Bool
is_guarded a = a.is_staff && (a.is_totp_enabled || a.is_webauthn_enabled)

module _ (w : World) (required : w.require_staff_2fa ≡ true) where
  abbrev IsGuarded : State → Type 0
  IsGuarded σ = is_guarded σ.account ≡ true
