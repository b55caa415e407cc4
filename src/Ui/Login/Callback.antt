-- ===== src/Ui/Login/Callback.antt =====
-- What a callback of the OIDC provider must bring for a login: HandleCallback of src/ui/oidc.go.
use mogenius_renovate_operat.Prelude.{
  ℕ, Option, none, some, [], ◌++◌, ◌≡◌, refl, sym, ap, ◌∙◌, arith,
}
use mathlib.Core.Path.{subst}
use mogenius_renovate_operat.Prelude.Text.{Text, text}
use mogenius_renovate_operat.Prelude.Int.{◌+ℤ◌}
use mogenius_renovate_operat.Prelude.Assoc.{lookup}
use mogenius_renovate_operat.Kube.{Result, ok, err}
use mogenius_renovate_operat.Http.{value_of}
use mogenius_renovate_operat.Ui.Access.{SessionData}
use mogenius_renovate_operat.Ui.Groups.{GroupFilterConfig, validate_and_normalize_groups}
use mogenius_renovate_operat.Ui.Session.{
  Crypto, AuthRequest, AuthReply, state_cookie_name, session_duration, validate_state_cookie,
  decrypt_session, build_complete_url,
}
use mogenius_renovate_operat.Ui.Session.Gate.{validate_state_cookie-ok}
use mogenius_renovate_operat.Ui.Session.RoundTrip.{CryptoLaws, build_complete_url-token}
use mogenius_renovate_operat.Ui.Login.{
  Tokens, Claims, Provider, answer_with, with_cookie, checked, after_state, redirect_to,
  complete_login, of_option, oidc_session, oidc_exchanged, oidc_callback,
}

module _ {W : Type 0} where
  answer_with-found :
      {A : Type 0} (message : Text) (out : Result A × W) (next : A → W → AuthReply × W)
      → (answer_with message out next).0.status ≡ 302
      → (a : A) × (out.0 ≡ ok a) × (answer_with message out next ≡ next a out.1)
  unfolding answer_with
  answer_with-found message (ok a, w) next h = (a, refl, refl)
  answer_with-found message (err e, w) next h = ground (arith, h)

  status_of : {a b : AuthReply × W} → a ≡ b → a.0.status ≡ 302 → b.0.status ≡ 302
  status_of same h = sym (ap (λ (o : AuthReply × W). o.0.status) same) ∙ h

  checked-found :
      (r : Result (Unit {0})) (next : W → AuthReply × W) (w : W)
      → (checked r next w).0.status ≡ 302
      → (r ≡ ok tt)
        × ((next w).0.status ≡ 302)
        × ((checked r next w).0.location ≡ (next w).0.location)
  unfolding checked with_cookie
  checked-found (ok done) next w h = (refl, h, refl)
  checked-found (err e) next w h = ground (arith, h)

module _ {W : Type 0} (x : Crypto W) (key : Text) (p : Provider W) (unicode_lower : ℕ → ℕ)
    (config : GroupFilterConfig) where
  -- The session that a login with the claims starts, at a time.
  abbrev pub session_from : Claims → W → SessionData
  session_from claims v = record {
    email = claims.email;
    name = claims.name;
    expiry = x.unix v +ℤ session_duration;
    access_token = [];
    groups = validate_and_normalize_groups unicode_lower claims.groups config;
  }

  some_of :
      {A : Type 0} (o : Option A) (w : W) {a : A} → (of_option x key p o w).0 ≡ ok a → o ≡ some a
  unfolding of_option
  some_of none w h = cc
  some_of (some a) w h = cc

  -- A redirect that starts the session of the claims of a verified id token, with a token that decrypts
  -- to that session.
  pub record Started (location : Text) : Type 0 where
    pub raw : Text
    pub before : W
    pub verified : Text
    pub verifies : (p.verify raw before).0 ≡ ok verified
    pub claims : Claims
    pub reads : p.claims verified ≡ some claims
    pub at : W
    pub token : Text
    pub place : location ≡ text "/auth/complete?s=" ++ x.query_escape token
    pub opens : decrypt_session x key token ≡ ok (session_from claims at)

  oidc_session-token :
      CryptoLaws x
      → (claims : Claims) (v : W)
      → (oidc_session x key p unicode_lower config claims v).0.status ≡ 302
      → (token : Text) × ((oidc_session x key p unicode_lower config claims v).0.location
          ≡ text "/auth/complete?s=" ++ x.query_escape token)
        × (decrypt_session x key token ≡ ok (session_from claims v))
  unfolding oidc_session complete_login redirect_to
  oidc_session-token laws claims v h =
      let opt : SessionData → SessionData = λ (s : SessionData). record s {
        groups = validate_and_normalize_groups unicode_lower claims.groups config;
      } in
      let (url, e, same) =
        answer_with-found _ (build_complete_url x key claims.email claims.name opt v)
          (redirect_to x key p) h in
      let (token, place, opens) =
        build_complete_url-token x laws key claims.email claims.name opt v url e in
      (token, ap (λ (o : AuthReply × W). o.0.location) same ∙ place, opens)

  oidc_exchanged-Started :
      CryptoLaws x
      → (tokens : Tokens) (w : W)
      → (oidc_exchanged x key p unicode_lower config tokens w).0.status ≡ 302
      → Started (oidc_exchanged x key p unicode_lower config tokens w).0.location
  unfolding oidc_exchanged
  oidc_exchanged-Started laws tokens w h =
      let (raw, r, same) = answer_with-found _ (of_option x key p tokens.id_token w) _ h in
      let u = (of_option x key p tokens.id_token w).1 in
      let (verified, f, same') = answer_with-found _ (p.verify raw u) _ (status_of same h) in
      let v = (p.verify raw u).1 in
      let (claims, c, same'') =
        answer_with-found _ (of_option x key p (p.claims verified) v) _
          (status_of same' (status_of same h)) in
      let t = (of_option x key p (p.claims verified) v).1 in
      let (token, place, opens) =
        oidc_session-token laws claims t (status_of same'' (status_of same' (status_of same h))) in
      record {
        raw = raw;
        before = u;
        verified = verified;
        verifies = f;
        claims = claims;
        reads = some_of (p.claims verified) v c;
        at = t;
        token = token;
        place = ap (λ (o : AuthReply × W). o.0.location) (same ∙ (same' ∙ same'')) ∙ place;
        opens = opens;
      }

  -- A callback of the OIDC provider completes a login only with the state that the browser's cookie
  -- holds, and with an id token that the provider verifies. The browser is then sent on with a token
  -- that decrypts to the session of the claims of that id token, which has no other groups than those
  -- that pass the validation and lasts 24 hours.
  pub oidc_callback-Started :
      CryptoLaws x
      → (r : AuthRequest) (w : W) → (oidc_callback x key p unicode_lower config r w).0.status ≡ 302
      → (lookup state_cookie_name r.cookies ≡ some (value_of (text "state") r.query))
        × Started (oidc_callback x key p unicode_lower config r w).0.location
  unfolding oidc_callback after_state
  oidc_callback-Started laws r w h =
      let code = value_of (text "code") r.query in
      let exchanged = oidc_exchanged x key p unicode_lower config in
      let exchange : W → AuthReply × W =
        λ v. answer_with (text "failed to exchange token") (p.exchange code v) exchanged in
      let (state, h1, place) = checked-found (validate_state_cookie r) exchange w h in
      let (tokens, e, same) = answer_with-found _ (p.exchange code w) exchanged h1 in
      let started = oidc_exchanged-Started laws tokens (p.exchange code w).1 (status_of same h1) in
      (
        validate_state_cookie-ok r state,
        subst Started (sym (place ∙ ap (λ (o : AuthReply × W). o.0.location) same)) started,
      )
