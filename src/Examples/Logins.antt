-- ===== src/Examples/Logins.antt =====
-- Runs of the login, with a cipher that hides nothing and a serialization of plain sessions.
use mogenius_renovate_operat.Prelude.{
  true, ℕ, zero, suc, ◌≡◌, refl, ap, ◌∙◌, sym, false, Option, none, some, List, [], ◌∷◌, ◌++◌,
  arith, if◌then◌else◌, length, take, dropped, take-++, dropped-++,
}
use mogenius_renovate_operat.Prelude.Text.{Text, text, ◌==◌, has_prefix}
use mogenius_renovate_operat.Prelude.Int.{ℤ, pos, negsuc, ltb_ℤ}
use mogenius_renovate_operat.Prelude.Assoc.{lookup}
use mogenius_renovate_operat.Kube.{other_error, Result, ok, err}
use mogenius_renovate_operat.Http.{value_of}
use mogenius_renovate_operat.Ui.Access.{SessionData}
use mogenius_renovate_operat.Ui.Groups.{GroupFilterConfig}
use mogenius_renovate_operat.Ui.Session.{
  Crypto, AuthRequest, Cookie, passed, session_cookie_name, state_cookie_name, is_https,
  new_session, decrypt_session, get_session, build_complete_url, handle_complete, auth_middleware,
}
use mogenius_renovate_operat.Ui.Session.RoundTrip.{CryptoLaws, get_session-build_complete_url}
use mogenius_renovate_operat.Ui.Session.Gate.{auth_middleware-api}
use mogenius_renovate_operat.Ui.Login.{Provider, oidc_callback}
use mogenius_renovate_operat.Ui.Login.Callback.{Started, oidc_callback-Started}

-- The length of the email, the email, the expiry and the name.
marshal_fields : Text → Text → ℤ → Text → List Text → Result Text
marshal_fields email name (pos expiry) [] [] = ok (length email ∷ (email ++ (expiry ∷ name)))
marshal_fields email name expiry token groups = err (other_error (text "not plain"))

session_from_parts : Text → Text → Option SessionData
session_from_parts email [] = none
session_from_parts email (expiry ∷ name) =
    some
      (record { email = email; name = name; expiry = pos expiry; access_token = []; groups = [] })

unmarshal_text : Text → Option SessionData
unfolding session_from_parts
unmarshal_text [] = none
unmarshal_text (n ∷ s) = session_from_parts (take n s) (dropped n s)

zeros : ℕ → Text
zeros zero = []
zeros (suc n) = 0 ∷ zeros n

length-zeros : (n : ℕ) → length (zeros n) ≡ n
unfolding zeros
length-zeros zero = refl
length-zeros (suc n) = ap suc (length-zeros n)

unfoldable open_crypto : Crypto ℕ
unfolding marshal_fields unmarshal_text zeros
open_crypto = record {
  marshal = λ (s : SessionData). marshal_fields s.email s.name s.expiry s.access_token s.groups;
  unmarshal = unmarshal_text;
  nonce_size = 12;
  seal = λ key nonce plaintext. plaintext;
  open_sealed = λ key nonce ciphertext. some ciphertext;
  encode = λ bytes. bytes;
  decode = λ bytes. some bytes;
  random_bytes = λ n w. (ok (zeros n), suc w);
  query_escape = λ s. s;
  unix = λ w. pos w;
}

unmarshal-marshal_fields :
    (email name : Text) (expiry : ℤ) (token : Text) (groups : List Text) (plaintext : Text)
    → marshal_fields email name expiry token groups ≡ ok plaintext
    → unmarshal_text plaintext
      ≡ some (record {
        email = email;
        name = name;
        expiry = expiry;
        access_token = token;
        groups = groups;
      })
unfolding marshal_fields unmarshal_text session_from_parts
unmarshal-marshal_fields email name (pos expiry) [] [] plaintext h =
    let same : length email ∷ (email ++ (expiry ∷ name)) ≡ plaintext = cc in
    ap unmarshal_text (sym same)
    ∙ rw (take-++ email (expiry ∷ name), dropped-++ email (expiry ∷ name)) refl
unmarshal-marshal_fields email name (pos expiry) [] (g ∷ groups) plaintext h = cc
unmarshal-marshal_fields email name (pos expiry) (t ∷ token) groups plaintext h = cc
unmarshal-marshal_fields email name (negsuc n) token groups plaintext h = cc

ok_inj : {a b : Text} → ok a ≡ ok b → a ≡ b
ok_inj h = cc

open_laws : CryptoLaws open_crypto
unfolding open_crypto
open_laws = record {
  unmarshal_marshal = λ s plaintext h.
      unmarshal-marshal_fields s.email s.name s.expiry s.access_token s.groups plaintext h;
  open_seal = λ key nonce plaintext h. refl;
  decode_encode = λ bytes. refl;
  encode_empty = λ bytes h. h;
  random_length = λ n w bytes h. sym (ap length (ok_inj h)) ∙ length-zeros n;
  nonce_size_positive = omega arith;
}

-- The token of a login of a developer at the time 5.
abbrev dev_token : Text
dev_token = 0 ∷ 0 ∷ 0 ∷ 0 ∷ 0 ∷ 0 ∷ 0 ∷ 0 ∷ 0 ∷ 0 ∷ 0 ∷ 0 ∷ 3 ∷ (text "a@b" ++ (86405 ∷ text "Dev"))

abbrev dev : SessionData
dev = new_session open_crypto [] (text "a@b") (text "Dev") 5

get_session-build_complete_url_example :
    (token : Text) × (text "/auth/complete?s=" ++ dev_token ≡ text "/auth/complete?s=" ++ token)
    × ((r : AuthRequest)
        → value_of (text "s") r.query ≡ token
        → ((handle_complete open_crypto [] r).status ≡ 200)
          × (others : List Cookie) × ((handle_complete open_crypto [] r).cookies
              ≡ record {
                name = text "renovate_session";
                value = token;
                max_age = pos 86400;
                http_only = true;
                secure = is_https r;
                same_site_lax = true;
              }
                ∷ others))
    × ((now : ℤ) (r : AuthRequest)
        → lookup (text "renovate_session") r.cookies ≡ some token
        → get_session open_crypto [] now r
          ≡ (if ltb_ℤ (pos 86405) now then err (other_error (text "session expired")) else ok dev))
unfolding open_crypto build_complete_url
get_session-build_complete_url_example =
    get_session-build_complete_url open_crypto open_laws [] (text "a@b") (text "Dev") (λ s. s) 5
      (text "/auth/complete?s=" ++ dev_token) (λ session. refl) refl

abbrev api_request : AuthRequest
api_request = record {
  path = text "/api/v1/renovatejobs";
  query = [];
  headers = [];
  cookies = (session_cookie_name, dev_token) ∷ [];
  tls = false;
}

auth_middleware-api_example :
    (cookies : List Cookie) × (auth_middleware open_crypto [] (pos 10) api_request
      ≡ passed cookies (some dev))
unfolding open_crypto decrypt_session has_prefix ◌==◌ lookup
auth_middleware-api_example =
    (auth_middleware-api open_crypto [] (pos 10) api_request refl refl).0 dev
      (record { value = dev_token; in_cookie = refl; opens = refl; fresh = refl })

unfoldable demo_provider : Provider ℕ
demo_provider = record {
  auth_code_url = λ state. state;
  exchange = λ code w. (ok (record { access_token = []; id_token = some (text "id") }), w);
  verify = λ raw w. (ok raw, w);
  claims = λ verified. some (record { email = text "a@b"; name = text "Dev"; groups = [] });
  send = λ r w. (err (other_error []), w);
  decode_user = λ body. none;
  decode_emails = λ body. none;
}

abbrev callback_request : AuthRequest
callback_request = record {
  path = text "/auth/callback";
  query = (text "state", text "x") ∷ [];
  headers = [];
  cookies = (state_cookie_name, text "x") ∷ [];
  tls = false;
}

abbrev any_groups : GroupFilterConfig
any_groups = record { allowed_prefix = []; allowed_pattern = none }

oidc_callback-Started_example :
    (lookup state_cookie_name callback_request.cookies
      ≡ some (value_of (text "state") callback_request.query))
    × Started open_crypto [] demo_provider
        (λ c. c)
        any_groups
        (oidc_callback open_crypto [] demo_provider
          (λ c. c)
          any_groups
          callback_request
          5).0.location
unfolding open_crypto demo_provider oidc_callback lookup ◌==◌
oidc_callback-Started_example =
    oidc_callback-Started open_crypto [] demo_provider (λ c. c) any_groups open_laws
      callback_request 5 refl
