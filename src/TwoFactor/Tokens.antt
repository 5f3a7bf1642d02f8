-- ===== src/TwoFactor/Tokens.antt =====
-- What a token for the programming interface does to the session of the request.
use study_sys.Prelude.{ap, ◌∙◌, ◌∷◌, ℕ, true, false, some, ◌≡◌, refl, arith, String, ◌==◌}
use study_sys.TwoFactor.{
  api_middleware, find_account, api_middleware, find_account, api_middleware, find_account,
  api_middleware, find_account, api_middleware, find_account, api_middleware, find_account, Account,
  Session, SitePath, passes, is_admin, token, no_header, goes_on, find_account, has_token,
  api_middleware, login_middleware,
}
use study_sys.TwoFactor.Forms.{World}
use study_sys.TwoFactor.Views.{
  State, Request, Reply, served, update_account, give_back, visits, path_of, view, login_view,
  serve, act_as,
}

passed_gate :
    (s : Session) (a : Account) (path : SitePath)
    → s.passed ≡ true
    → s.password_pwned ≡ false
    → login_middleware s a path ≡ passes
unfolding login_middleware
passed_gate s a path passed unleaked = rw (passed, unleaked, login_middleware) (ground arith)

-- A request in a session that has passed, with a password that has not leaked, reaches the view.
login_view_passed :
    (w : World) (r : Request) (σ : State)
    → σ.session.passed ≡ true
    → σ.session.password_pwned ≡ false
    → login_view w r σ ≡ view w r σ
unfolding login_view
login_view_passed w r σ passed unleaked =
    rw (passed_gate σ.session σ.account (path_of r) passed unleaked, login_view) refl

-- The session after a token that is accepted.
abbrev pub passing : Session → Session
passing s = record s { passed = true }

token_accepted :
    (w : World) (id : ℕ) (secret : String) (σ : State) (b : Account)
    → (σ.account.id == id) ≡ false
    → find_account id σ.others ≡ some b
    → has_token w.digest secret b ≡ true
    → api_middleware w.digest (σ.account ∷ σ.others) false (token id secret) σ.session
      ≡ (passing σ.session, goes_on)
unfolding api_middleware find_account
token_accepted w id secret σ b foreign found right =
    rw (foreign, found, right, api_middleware, find_account) refl

acted_as :
    (id : ℕ) (secret : String) (f : State → State × Reply) (σ : State) (b : Account)
    → (σ.account.id == id) ≡ false
    → find_account id σ.others ≡ some b
    → act_as (token id secret) f σ ≡ give_back σ.account (f (record σ { account = b }))
unfolding act_as
acted_as id secret f σ b foreign found = rw (foreign, found, act_as) refl

-- What a page leaves that is read with the valid token of another account.
token_state :
    (w : World) (id : ℕ) (secret : String) (path : SitePath) (σ : State) (b : Account)
    → (σ.account.id == id) ≡ false
    → find_account id σ.others ≡ some b
    → has_token w.digest secret b ≡ true
    → is_admin path ≡ false
    → σ.session.password_pwned ≡ false
    → serve w (token id secret) (visits path) σ
      ≡ (record σ { session = passing σ.session; others = update_account b σ.others }, served)
unfolding serve view
token_state w id secret path σ b foreign found right outside unleaked =
    let s = passing σ.session in
    rw (outside, token_accepted w id secret σ b foreign found right, serve)
      (acted_as id secret (login_view w (visits path)) (record σ { session = s }) b foreign found
        ∙ ap (give_back σ.account) (
            login_view_passed w (visits path) (record σ { session = s; account = b }) refl
              unleaked))

-- In a session whose password has not leaked, a page outside the administration that is read with
-- the valid token of another account leaves the account of the session as it was and makes the
-- session pass: the next request without a token, whatever it is, reaches its view as the account of
-- the session, and is not asked for the second factor of that account.
pub serve_token :
    (w : World) (id : ℕ) (secret : String) (path : SitePath) (r : Request) (σ : State) (b : Account)
    → (σ.account.id == id) ≡ false
    → find_account id σ.others ≡ some b
    → has_token w.digest secret b ≡ true
    → is_admin path ≡ false
    → σ.session.password_pwned ≡ false
    → let τ = (serve w (token id secret) (visits path) σ).0 in
      (τ.account ≡ σ.account) × (τ.session.passed ≡ true) × (serve w no_header r τ ≡ view w r τ)
unfolding serve
serve_token w id secret path r σ b foreign found right outside unleaked =
    let same = token_state w id secret path σ b foreign found right outside unleaked in
    let τ : State = record σ { session = passing σ.session; others = update_account b σ.others } in
    rw (same, serve) (refl, refl, login_view_passed w r τ refl unleaked)
