-- ===== src/Ui/Login.antt =====
-- Logging in and out: src/ui/oidc.go and src/ui/github_oauth.go. The OAuth2 and OIDC libraries are the
-- record Provider: the exchange of a code gives the access token and the raw id token, if there is one,
-- and a verified id token its claims. An HTTP request of the GitHub client is sent by `send`; the JSON
-- of its answers is read by the two last fields. The routes that only pass on to src/ui/auth.go are
-- its functions themselves.
pub mod Callback
use mogenius_renovate_operat.Prelude.{
  ℕ, Bool, true, false, not, ◌&&◌, Option, none, some, List, [], ◌∷◌, ◌++◌, if◌then◌else◌, nat_eq,
  select,
}
use mogenius_renovate_operat.Prelude.Text.{Text, text, ◌==◌, contains}
use mogenius_renovate_operat.Prelude.Assoc.{Assoc}
use mogenius_renovate_operat.Kube.{Error, other_error, Result, ok, err, Io, ◌>>=◌, pure, raise}
use mogenius_renovate_operat.Http.{
  value_of, status_ok, status_bad_request, status_internal_server_error,
}
use mogenius_renovate_operat.Ui.Access.{SessionData}
use mogenius_renovate_operat.Ui.Groups.{GroupFilterConfig, validate_and_normalize_groups}
use mogenius_renovate_operat.Ui.Session.{
  Crypto, Cookie, AuthRequest, AuthReply, session_cookie_name, state_cookie_name, cleared,
  http_error, redirect, validate_state_cookie, set_state_cookie, get_session, build_complete_url,
}

pub record Tokens : Type 0 where
  pub access_token : Text
  pub id_token : Option Text

pub record Claims : Type 0 where
  pub email : Text
  pub name : Text
  pub groups : List Text

pub record GithubUser : Type 0 where
  pub login : Text
  pub name : Text
  pub email : Text

pub record GithubEmail : Type 0 where
  pub email : Text
  pub primary : Bool
  pub verified : Bool

pub record HttpRequest : Type 0 where
  pub method : Text
  pub url : Text
  pub headers : Assoc Text
  pub body : Text

pub record HttpResponse : Type 0 where
  pub status : ℕ
  pub body : Text

pub record Provider (W : Type 0) : Type 0 where
  pub auth_code_url : Text → Text
  pub exchange : Text → Io W Tokens
  pub verify : Text → Io W Text
  pub claims : Text → Option Claims
  pub send : HttpRequest → Io W HttpResponse
  pub decode_user : Text → Option GithubUser
  pub decode_emails : Text → Option (List GithubEmail)

message_of : Error → Text
message_of (other_error message) = message
message_of _ = []

-- The scopes that are not seen yet.
scopes_loop : List Text → List Text → List Text
scopes_loop seen [] = []
scopes_loop seen (s ∷ additional_scopes) =
    let known = scopes_loop seen additional_scopes in
    let fresh = scopes_loop (s ∷ seen) additional_scopes in
    if contains seen s then known else s ∷ fresh

unfoldable pub build_oidc_scopes : List Text → List Text
unfolding scopes_loop
build_oidc_scopes additional_scopes =
    let scopes = text "openid" ∷ text "email" ∷ text "profile" ∷ [] in
    scopes ++ scopes_loop scopes additional_scopes

first_email : List GithubEmail → Option Text
first_email [] = none
first_email (e ∷ emails) = some e.email

unfoldable pub primary_email : List GithubEmail → Option Text
unfolding first_email
primary_email emails =
    elim (first_email (select (λ (e : GithubEmail). e.primary && e.verified) emails)) [
      | some email ↦ some email
      | none ↦ first_email (select (λ (e : GithubEmail). e.verified) emails)
    ]

module _ {W : Type 0} where
  -- What becomes of a result: an error is answered 500 with the message.
  pub answer_with : {A : Type 0} → Text → Result A × W → (A → W → AuthReply × W) → AuthReply × W
  answer_with message (ok a, w) next = next a w
  answer_with message (err e, w) next = (http_error status_internal_server_error message, w)

  with_cookie : Cookie → AuthReply × W → AuthReply × W
  with_cookie cookie (reply, w) = (record reply { cookies = cookie ∷ reply.cookies }, w)

  checked : Result (Unit {0}) → (W → AuthReply × W) → W → AuthReply × W
  unfolding message_of with_cookie
  checked (err e) next w = (http_error status_bad_request (message_of e), w)
  checked (ok done) next w = with_cookie (cleared state_cookie_name) (next w)

  -- What follows the check of the state cookie.
  after_state : AuthRequest → (W → AuthReply × W) → W → AuthReply × W
  unfolding checked validate_state_cookie
  after_state r = checked (validate_state_cookie r)

module _ {W : Type 0} (x : Crypto W) (key : Text) (p : Provider W) where
  -- HandleLogin of both providers
  unfoldable pub handle_login : AuthRequest → W → AuthReply × W
  unfolding answer_with set_state_cookie
  handle_login r w = answer_with (text "internal error") (set_state_cookie x r w) (λ state v. (
    record {
      cookies = state.1 ∷ [];
      status = 302;
      location = p.auth_code_url state.0;
      message = [];
    },
    v,
  ))

  redirect_to : Text → W → AuthReply × W
  redirect_to location w = (redirect location, w)

  -- The redirect to the URL that completes the login.
  complete_login : Text → Text → (SessionData → SessionData) → W → AuthReply × W
  unfolding answer_with build_complete_url redirect_to
  complete_login email name opt w =
      answer_with (text "internal error") (build_complete_url x key email name opt w) redirect_to

  of_option : {A : Type 0} → Option A → W → Result A × W
  of_option none w = (err (other_error (text "missing")), w)
  of_option (some a) w = (ok a, w)

  module _ (unicode_lower : ℕ → ℕ) (config : GroupFilterConfig) where
    -- The session that the claims give.
    oidc_session : Claims → W → AuthReply × W
    unfolding complete_login validate_and_normalize_groups
    oidc_session claims = complete_login claims.email claims.name (λ (s : SessionData). record s {
      groups = validate_and_normalize_groups unicode_lower claims.groups config;
    })

    oidc_exchanged : Tokens → W → AuthReply × W
    unfolding answer_with oidc_session of_option
    oidc_exchanged tokens w =
        answer_with (text "no id_token in response") (of_option tokens.id_token w) (λ raw v.
          answer_with (text "failed to verify token") (p.verify raw v) (λ verified u.
            answer_with (text "failed to parse claims") (of_option (p.claims verified) u)
              oidc_session))

    -- HandleCallback of OIDCAuth
    unfoldable pub oidc_callback : AuthRequest → W → AuthReply × W
    unfolding after_state oidc_exchanged value_of
    oidc_callback r = after_state r (λ w.
        answer_with (text "failed to exchange token")
          (p.exchange (value_of (text "code") r.query) w) oidc_exchanged)

  github_request : Text → Text → HttpRequest
  github_request url access_token = record {
    method = text "GET";
    url = url;
    headers =
        (text "Authorization", text "Bearer " ++ access_token)
        ∷ (text "Accept", text "application/vnd.github+json")
        ∷ [];
    body = [];
  }

  -- The body of an answer with the status 200.
  body_of : HttpResponse → Io W Text
  body_of response =
      if nat_eq response.status status_ok
      then pure response.body
      else raise (other_error (text "GitHub API returned another status"))

  decoded : {A : Type 0} → Option A → Io W A
  decoded none = raise (other_error (text "json"))
  decoded (some a) = pure a

  unfoldable pub fetch_primary_email : Text → Io W Text
  unfolding github_request body_of decoded primary_email
  fetch_primary_email access_token = do
    response ← p.send (github_request (text "https://api.github.com/user/emails") access_token)
    body ← body_of response
    emails ← decoded (p.decode_emails body)
    decoded (primary_email emails)

  -- the email of `email, _ = g.fetchPrimaryEmail`
  email_or_empty : Result Text → Text
  email_or_empty (ok email) = email
  email_or_empty (err e) = []

  looked_up : Text → Text → Io W Text
  unfolding fetch_primary_email email_or_empty
  looked_up email access_token w =
      if email == []
      then (let (found, w') = fetch_primary_email access_token w in (ok (email_or_empty found), w'))
      else (ok email, w)

  -- the email and the name of a user
  unfoldable pub fetch_github_user : Text → Io W (Text × Text)
  unfolding github_request body_of decoded looked_up
  fetch_github_user access_token = do
    response ← p.send (github_request (text "https://api.github.com/user") access_token)
    body ← body_of response
    user ← decoded (p.decode_user body)
    email ← looked_up user.email access_token
    pure (
      if email == [] then user.login ++ text "@github" else email,
      if user.name == [] then user.login else user.name,
    )

  github_exchanged : Tokens → W → AuthReply × W
  unfolding answer_with fetch_github_user complete_login
  github_exchanged tokens w =
      answer_with (text "failed to fetch user info") (fetch_github_user tokens.access_token w)
        (λ user.
          complete_login user.0 user.1
            (λ (s : SessionData). record s { access_token = tokens.access_token }))

  -- HandleCallback of GitHubOAuth
  unfoldable pub github_callback : AuthRequest → W → AuthReply × W
  unfolding after_state github_exchanged value_of
  github_callback r = after_state r (λ w.
      answer_with (text "failed to exchange token") (p.exchange (value_of (text "code") r.query) w)
        github_exchanged)
