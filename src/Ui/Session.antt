-- ===== src/Ui/Session.antt =====
-- Sessions and the gate of the web interface: src/ui/auth.go. The Go packages for JSON, base64, AES-GCM and
-- random bytes are the record Crypto; the key has 32 bytes, for which the cipher is always created. A
-- text is a list of bytes here. An answer is its cookies, its status, the place it redirects to and
-- its message.
pub mod RoundTrip
pub mod Gate
use mogenius_renovate_operat.Prelude.{
  ℕ, ◌-◌, Bool, true, false, ◌||◌, Option, none, some, List, [], ◌∷◌, ◌++◌, if◌then◌else◌, ltb,
  length, take, dropped, is_some,
}
use mogenius_renovate_operat.Prelude.Text.{Text, text, ◌==◌, has_prefix}
use mogenius_renovate_operat.Prelude.Int.{ℤ, pos, negsuc, ltb_ℤ, ◌+ℤ◌}
use mogenius_renovate_operat.Prelude.Assoc.{Assoc, lookup}
use mogenius_renovate_operat.Kube.{Error, other_error, Result, ok, err, Io, ◌>>=◌, pure, raise}
use mogenius_renovate_operat.Http.{
  value_of, status_ok, status_bad_request, status_unauthorized, status_internal_server_error,
}
use mogenius_renovate_operat.Ui.Access.{SessionData}

pub record Crypto (W : Type 0) : Type 0 where
  pub marshal : SessionData → Result Text
  pub unmarshal : Text → Option SessionData
  pub nonce_size : ℕ
  -- gcm.Seal and gcm.Open: key, nonce, and plaintext or ciphertext
  pub seal : Text → Text → Text → Text
  pub open_sealed : Text → Text → Text → Option Text
  pub encode : Text → Text
  pub decode : Text → Option Text
  -- so many random bytes
  pub random_bytes : ℕ → Io W Text
  -- url.QueryEscape
  pub query_escape : Text → Text
  -- time.Now().Unix()
  pub unix : W → ℤ

pub record Cookie : Type 0 where
  pub name : Text
  pub value : Text
  pub max_age : ℤ
  pub http_only : Bool
  pub secure : Bool
  pub same_site_lax : Bool

-- `tls` says whether the request came over TLS.
pub record AuthRequest : Type 0 where
  pub path : Text
  pub query : Assoc Text
  pub headers : Assoc Text
  pub cookies : Assoc Text
  pub tls : Bool

pub record AuthReply : Type 0 where
  pub cookies : List Cookie
  pub status : ℕ
  pub location : Text
  pub message : Text

-- What the middleware does: it calls the next handler, with a session or without, or answers itself.
pub data Passage : Type 0 where
  passed : List Cookie → Option SessionData → Passage
  stopped : AuthReply → Passage

abbrev pub session_cookie_name : Text
session_cookie_name = text "renovate_session"

abbrev pub state_cookie_name : Text
state_cookie_name = text "oauth_state"

abbrev pub auth_completed_cookie : Text
auth_completed_cookie = text "auth_completed"

abbrev pub status_found : ℕ
status_found = 302

-- sessionDuration in seconds
abbrev pub session_duration : ℤ
session_duration = pos 86400

abbrev pub cleared : Text → Cookie
cleared name = record {
  name = name;
  value = [];
  max_age = negsuc 0;
  http_only = true;
  secure = false;
  same_site_lax = false;
}

abbrev pub http_error : ℕ → Text → AuthReply
http_error status message = record {
  cookies = [];
  status = status;
  location = [];
  message = message;
}

abbrev pub redirect : Text → AuthReply
redirect location = record {
  cookies = [];
  status = status_found;
  location = location;
  message = [];
}

-- The answer that sets the session cookie.
abbrev pub completed_session : Bool → Text → AuthReply
completed_session secure session_value = record {
  cookies =
      record {
        name = session_cookie_name;
        value = session_value;
        max_age = session_duration;
        http_only = true;
        secure = secure;
        same_site_lax = true;
      }
      ∷ record {
        name = auth_completed_cookie;
        value = text "1";
        max_age = pos 60;
        http_only = true;
        secure = secure;
        same_site_lax = true;
      }
      ∷ [];
  status = status_ok;
  location = text "/";
  message = [];
}

unfoldable pub is_public_path : Text → Bool
is_public_path path =
    if (path == text "/health") || (path == text "/api/v1/auth/status")
    then true
    else if has_prefix path (text "/auth/")
    then true
    else if has_prefix path (text "/js/")
        || has_prefix path (text "/css/")
        || has_prefix path (text "/assets/")
        || (path == text "/favicon.ico")
    then true
    else false

unfoldable pub is_https : AuthRequest → Bool
unfolding value_of
is_https r = if r.tls then true else value_of (text "X-Forwarded-Proto") r.headers == text "https"

check_state : Text → Option Text → Result (Unit {0})
check_state state none = err (other_error (text "missing state cookie"))
check_state state (some value) =
    if state == value then ok tt else err (other_error (text "invalid state"))

unfoldable pub validate_state_cookie : AuthRequest → Result (Unit {0})
unfolding value_of check_state
validate_state_cookie r =
    check_state (value_of (text "state") r.query) (lookup state_cookie_name r.cookies)

module _ {W : Type 0} (x : Crypto W) where
  -- newEncryptionKey; `sha256` is the digest of a text
  unfoldable pub new_encryption_key : (Text → Text) → Text → Io W Text
  new_encryption_key sha256 session_secret w =
      if session_secret == [] then x.random_bytes 32 w else (ok (sha256 session_secret), w)

  -- generateRandomString
  unfoldable pub generate_random_string : ℕ → Io W Text
  generate_random_string n = do bytes ← x.random_bytes n; pure (x.encode bytes)

  unfoldable pub set_state_cookie : AuthRequest → Io W (Text × Cookie)
  unfolding generate_random_string is_https
  set_state_cookie r = do
    state ← generate_random_string 32
    pure (
      state,
      record {
        name = state_cookie_name;
        value = state;
        max_age = pos 300;
        http_only = true;
        secure = is_https r;
        same_site_lax = true;
      },
    )

  module _ (key : Text) where
    sealed : Result Text → Io W Text
    sealed (err e) = raise e
    sealed (ok plaintext) = do
      nonce ← x.random_bytes x.nonce_size
      pure (x.encode (nonce ++ x.seal key nonce plaintext))

    unfoldable pub encrypt_session : SessionData → Io W Text
    unfolding sealed
    encrypt_session session = sealed (x.marshal session)

    session_of : Option Text → Result SessionData
    session_of none = err (other_error (text "cipher: message authentication failed"))
    session_of (some plaintext) = elim (x.unmarshal plaintext) [
      | none ↦ err (other_error (text "invalid session data"))
      | some session ↦ ok session
    ]

    opened : Option Text → Result SessionData
    unfolding session_of
    opened none = err (other_error (text "illegal base64 data"))
    opened (some data') =
        if ltb (length data') x.nonce_size
        then err (other_error (text "ciphertext too short"))
        else session_of (x.open_sealed key (take x.nonce_size data') (dropped x.nonce_size data'))

    unfoldable pub decrypt_session : Text → Result SessionData
    unfolding opened
    decrypt_session encrypted = opened (x.decode encrypted)

    unexpired : ℤ → Result SessionData → Result SessionData
    unexpired now (err e) = err e
    unexpired now (ok session) =
        if ltb_ℤ session.expiry now then err (other_error (text "session expired")) else ok session

    session_in : ℤ → Option Text → Result SessionData
    unfolding unexpired decrypt_session
    session_in now none = err (other_error (text "http: named cookie not present"))
    session_in now (some value) = unexpired now (decrypt_session value)

    -- getSession at the time `now`
    unfoldable pub get_session : ℤ → AuthRequest → Result SessionData
    unfolding session_in
    get_session now r = session_in now (lookup session_cookie_name r.cookies)

    -- the answer to a request without a session
    rejected : AuthRequest → AuthReply
    rejected r =
        if is_some (lookup auth_completed_cookie r.cookies)
        then record {
          cookies = cleared auth_completed_cookie ∷ [];
          status = status_internal_server_error;
          location = [];
          message = text "Authentication loop detected";
        }
        else if has_prefix r.path (text "/api/")
        then http_error status_unauthorized (text "unauthorized")
        else redirect (text "/auth/login")

    admitted : AuthRequest → Result SessionData → Passage
    unfolding rejected
    admitted r (err e) = stopped (rejected r)
    admitted r (ok session) =
        passed
          (if is_some (lookup auth_completed_cookie r.cookies)
            then cleared auth_completed_cookie ∷ []
            else [])
          (some session)

    unfoldable pub auth_middleware : ℤ → AuthRequest → Passage
    unfolding is_public_path admitted get_session
    auth_middleware now r =
        if is_public_path r.path then passed [] none else admitted r (get_session now r)

    -- handleAuthStatus: whether the request is authenticated, with the email and the name
    unfoldable pub handle_auth_status : ℤ → AuthRequest → Option (Text × Text)
    unfolding get_session
    handle_auth_status now r = elim (get_session now r) [
      | ok session ↦ some (session.email, session.name)
      | err e ↦ none
    ]

    -- The session that a login starts, before the options.
    abbrev pub new_session : Text → Text → W → SessionData
    new_session email name w = record {
      email = email;
      name = name;
      expiry = x.unix w +ℤ session_duration;
      access_token = [];
      groups = [];
    }

    -- `opt` is what the option functions do to the session.
    unfoldable pub build_complete_url : Text → Text → (SessionData → SessionData) → Io W Text
    unfolding encrypt_session
    build_complete_url email name opt w =
        (encrypt_session (opt (new_session email name w)) >>= λ encrypted.
        pure (text "/auth/complete?s=" ++ x.query_escape encrypted))
          w

    unfoldable pub handle_complete : AuthRequest → AuthReply
    unfolding value_of decrypt_session is_https
    handle_complete r =
        let session_value = value_of (text "s") r.query in
        if session_value == []
        then http_error status_bad_request (text "missing session parameter")
        else elim (decrypt_session session_value) [
          | err e ↦ http_error status_bad_request (text "invalid session token")
          | ok session ↦ completed_session (is_https r) session_value
        ]
