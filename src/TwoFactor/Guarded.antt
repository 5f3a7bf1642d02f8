-- ===== src/TwoFactor/Guarded.antt =====
-- What the requests of a session can do before the second factor has been given, and what staff
-- cannot do.
use study_sys.Prelude.{Bool, true, false, ◌&&◌, not, List, [], ◌∷◌, ◌≡◌, ◌||◌}
use study_sys.TwoFactor.{
  Header, Header, Header, Header, Header, token, ApiReply, Header, Account, Gate, passes,
  login_middleware, goes_on,
}
use study_sys.TwoFactor.Forms.{World, Clean, valid, clean_login}
use study_sys.TwoFactor.Views.{
  check_token, login_view, gated, State, Request, passes_2fa, view, serve, path_of,
}

-- The form of the second factor is valid.
abbrev pub is_valid : Clean → Bool
is_valid (valid a) = true
is_valid _ = false

abbrev pub accepts_form : World → Request → State → Bool
accepts_form w (passes_2fa now form) σ =
    is_valid (clean_login w now σ.session.webauthn_assert form σ.account)
accepts_form w _ σ = false

-- The request has a token, and the middleware accepts it.
abbrev pub accepts_token : Header → ApiReply → Bool
accepts_token (token id secret) goes_on = true
accepts_token _ _ = false

abbrev pub accepts : World → Header → Request → State → Bool
accepts w h r σ = accepts_token h (check_token w h r σ).1 || accepts_form w r σ

unfoldable pub none_accepted : World → List (Header × Request) → State → Bool
none_accepted w [] σ = true
none_accepted w ((h, r) ∷ rs) σ = not (accepts w h r σ) && none_accepted w rs (serve w h r σ).0

-- The account as it was, in a session that has not passed.
abbrev pub IsHeld : Account → State → Type 0
IsHeld a σ = (σ.account ≡ a) × (σ.session.passed ≡ false)

module _ (P : State → Type 0) (w : World) (r : Request) (σ : State) where
  -- What the view keeps, the request keeps: before the view nothing is written.
  by_gate : (g : Gate) → P σ → P (view w r σ).0 → P (gated g σ (view w r σ)).0
  by_gate passes same kept = kept
  by_gate Gate.to_login_2fa same kept = same
  by_gate Gate.to_password_change same kept = same

  pub login_view_keeps : P σ → P (view w r σ).0 → P (login_view w r σ).0
  unfolding login_view
  login_view_keeps same kept = by_gate (login_middleware σ.session σ.account (path_of r)) same kept
