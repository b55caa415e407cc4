-- ===== src/Ui/Session/Gate.antt =====
-- Who gets through the middleware of the web interface: isPublicPath, getSession and authMiddleware of
-- src/ui/auth.go.
use mogenius_renovate_operat.Prelude.{
  Bool, true, false, not, ◌||◌, Option, none, some, List, [], ◌∷◌, ◌≡◌, ◌≢◌, refl, sym, ap, ◌∙◌,
  if◌then◌else◌, arith, nat_eq, is_some, Bool-cases, inl, inr,
}
use mathlib.Core.Path.{subst}
use mogenius_renovate_operat.Prelude.Text.{Text, text, ◌==◌, eq→≡, has_prefix}
use mogenius_renovate_operat.Prelude.Int.{ℤ, ltb_ℤ}
use mogenius_renovate_operat.Prelude.Assoc.{lookup}
use mogenius_renovate_operat.Kube.{Error, Result, ok, err}
use mogenius_renovate_operat.Http.{value_of, status_unauthorized, status_internal_server_error}
use mogenius_renovate_operat.Ui.Access.{SessionData}
use mogenius_renovate_operat.Ui.Session.{
  Crypto, Cookie, AuthRequest, AuthReply, passed, stopped, session_cookie_name,
  auth_completed_cookie, cleared, is_public_path, check_state, validate_state_cookie,
  state_cookie_name, decrypt_session, unexpired, session_in, get_session, rejected, admitted,
  auth_middleware,
}

-- Whether two texts differ at a place that both have.
clash : Text → Text → Bool
clash [] t = false
clash (c ∷ s) [] = false
clash (c ∷ s) (d ∷ t) = not (nat_eq c d) || clash s t

has_prefix-clash :
    (s p q : Text) → has_prefix s p ≡ true → clash p q ≡ true → has_prefix s q ≡ false
unfolding has_prefix clash
has_prefix-clash s [] q h k = ground arith
has_prefix-clash s (d ∷ p) [] h k = ground arith
has_prefix-clash [] (d ∷ p) (e ∷ q) h k = refl
has_prefix-clash (c ∷ s) (d ∷ p) (e ∷ q) h k = ground (arith, has_prefix-clash s p q)

eq-clash : (s p q : Text) → has_prefix s p ≡ true → clash p q ≡ true → (s == q) ≡ false
unfolding has_prefix clash ◌==◌
eq-clash s [] q h k = ground arith
eq-clash s (d ∷ p) [] h k = ground arith
eq-clash [] (d ∷ p) (e ∷ q) h k = refl
eq-clash (c ∷ s) (d ∷ p) (e ∷ q) h k = ground (arith, eq-clash s p q)

-- Of the paths of the API only the status of the login is public.
is_public_path-api :
    (path : Text)
    → has_prefix path (text "/api/") ≡ true
    → is_public_path path ≡ (path == text "/api/v1/auth/status")
unfolding is_public_path clash
is_public_path-api path h =
    let health = eq-clash path (text "/api/") (text "/health") h refl in
    let auth = has_prefix-clash path (text "/api/") (text "/auth/") h refl in
    let js = has_prefix-clash path (text "/api/") (text "/js/") h refl in
    let css = has_prefix-clash path (text "/api/") (text "/css/") h refl in
    let assets = has_prefix-clash path (text "/api/") (text "/assets/") h refl in
    let favicon = eq-clash path (text "/api/") (text "/favicon.ico") h refl in
    rw (health, auth, js, css, assets, favicon) (ground arith)

unless-err :
    {t : Bool} (e : Error) {done : Unit {0}} → t ≡ false → (if t then ok tt else err e) ≢ ok done
unless-err {t} e h k = ground (arith, h, k)

check_state-ok :
    (state : Text) (found : Option Text) {done : Unit {0}}
    → check_state state found ≡ ok done
    → found ≡ some state
unfolding check_state
check_state-ok state none h = cc
check_state-ok state (some value) h = elim (Bool-cases (state == value)) [
  | inl e ↦ ap some (sym (eq→≡ state value e))
  | inr e ↦ absurd (unless-err _ e h)
]

-- The check passes only if the query has the state of the cookie.
pub validate_state_cookie-ok :
    (r : AuthRequest)
    → validate_state_cookie r ≡ ok tt
    → lookup state_cookie_name r.cookies ≡ some (value_of (text "state") r.query)
unfolding validate_state_cookie
validate_state_cookie-ok r h =
    check_state-ok (value_of (text "state") r.query) (lookup state_cookie_name r.cookies) h

module _ {W : Type 0} (x : Crypto W) (key : Text) where
  rejected-api :
      (r : AuthRequest)
      → has_prefix r.path (text "/api/") ≡ true
      → (rejected x key r).status ≡ (
          if is_some (lookup auth_completed_cookie r.cookies)
          then status_internal_server_error
          else status_unauthorized)
  unfolding rejected
  rejected-api r api = rw api (ground arith)

  unless-ok :
      (t : Bool) (e : Error) (s : SessionData) {session : SessionData}
      → (if t then err e else ok s) ≡ ok session
      → (t ≡ false) × (s ≡ session)
  unless-ok true e s h = cc
  unless-ok false e s h = (refl, cc)

  unexpired-ok :
      (now : ℤ) (r : Result SessionData) {session : SessionData}
      → unexpired x key now r ≡ ok session
      → (r ≡ ok session) × (ltb_ℤ session.expiry now ≡ false)
  unfolding unexpired
  unexpired-ok now (err e) h = cc
  unexpired-ok now (ok s) h =
      let (t, same) = unless-ok (ltb_ℤ s.expiry now) _ s h in
      (ap ok same, subst (λ (z : SessionData). ltb_ℤ z.expiry now ≡ false) same t)

  session_in-ok :
      (now : ℤ) (found : Option Text) {session : SessionData}
      → session_in x key now found ≡ ok session
      → (value : Text) × (found ≡ some value)
        × (decrypt_session x key value ≡ ok session)
        × (ltb_ℤ session.expiry now ≡ false)
  unfolding session_in
  session_in-ok now none h = cc
  session_in-ok now (some value) h =
      let (opens, fresh) = unexpired-ok now (decrypt_session x key value) h in
      (value, refl, opens, fresh)

  -- The request has a session cookie that decrypts under the server's key to a session that has not
  -- expired.
  pub record HasSession (now : ℤ) (r : AuthRequest) (session : SessionData) : Type 0 where
    pub value : Text
    pub in_cookie : lookup (text "renovate_session") r.cookies ≡ some value
    pub opens : decrypt_session x key value ≡ ok session
    pub fresh : ltb_ℤ session.expiry now ≡ false

  get_session-HasSession :
      (now : ℤ) (r : AuthRequest) (session : SessionData)
      → get_session x key now r ≡ ok session
      → HasSession now r session
  unfolding get_session
  get_session-HasSession now r session h =
      let (value, l, opens, fresh) = session_in-ok now (lookup session_cookie_name r.cookies) h in
      record { value = value; in_cookie = l; opens = opens; fresh = fresh }

  HasSession-get_session :
      (now : ℤ) (r : AuthRequest) (session : SessionData)
      → HasSession now r session
      → get_session x key now r ≡ ok session
  unfolding get_session
  HasSession-get_session now r session h =
      rw (h.in_cookie, session_in, h.opens, unexpired, h.fresh) refl

  passed-only :
      (r : AuthRequest) (found : Result SessionData) {cookies : List Cookie}
      {given : Option SessionData}
      → admitted x key r found ≡ passed cookies given
      → (session : SessionData) × (given ≡ some session) × (found ≡ ok session)
  unfolding admitted
  passed-only r (err e) h = cc
  passed-only r (ok session) h = (session, cc, refl)

  stopped-only :
      (r : AuthRequest) (found : Result SessionData) {reply : AuthReply}
      → admitted x key r found ≡ stopped reply
      → reply ≡ rejected x key r
  unfolding admitted
  stopped-only r (err e) h = cc
  stopped-only r (ok session) h = cc

  -- A request to the API, other than for the status of the login, reaches a handler exactly if it has a
  -- session: if its session cookie decrypts under the server's key to one that has not expired, and
  -- then the handler is given that session. Any other request is answered 401, or 500 if the cookie of a
  -- login that was just completed is there.
  pub auth_middleware-api :
      (now : ℤ) (r : AuthRequest)
      → has_prefix r.path (text "/api/") ≡ true
      → (r.path == text "/api/v1/auth/status") ≡ false
      → ((session : SessionData)
          → HasSession now r session
          → (cookies : List Cookie) × (auth_middleware x key now r ≡ passed cookies (some session)))
        × ((cookies : List Cookie) (given : Option SessionData)
            → auth_middleware x key now r ≡ passed cookies given
            → (session : SessionData) × (given ≡ some session) × HasSession now r session)
        × ((reply : AuthReply)
            → auth_middleware x key now r ≡ stopped reply
            → reply.status ≡ (
                if is_some (lookup auth_completed_cookie r.cookies)
                then status_internal_server_error
                else status_unauthorized))
  unfolding auth_middleware
  auth_middleware-api now r api other =
      let guarded : is_public_path r.path ≡ false = is_public_path-api r.path api ∙ other in
      let found = get_session x key now r in
      rw guarded (
        λ session h. (
          (if is_some (lookup auth_completed_cookie r.cookies)
              then cleared auth_completed_cookie ∷ []
              else []),
          rw (HasSession-get_session now r session h, admitted) refl,
        ),
        λ cookies given h.
            let (session, e, k) = passed-only r found h in
            (session, e, get_session-HasSession now r session k),
        λ reply h. ap (λ (a : AuthReply). a.status) (stopped-only r found h) ∙ rejected-api r api,
      )
