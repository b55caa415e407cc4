-- ===== src/Webhook/Server.antt =====
-- The authentication of the webhook server: src/webhook/server.go.
use mogenius_renovate_operat.Prelude.{
  Bool, true, false, not, Option, none, some, List, [], ◌∷◌, if◌then◌else◌,
}
use mogenius_renovate_operat.Prelude.Text.{Text, text, ◌==◌, has_prefix, split, trim_space}
use mogenius_renovate_operat.Api.{RenovateWebhook, RenovateWebhookAuth, RenovateJob}
use mogenius_renovate_operat.Kube.{Error, panic, Result, ok, err, Client}
use mogenius_renovate_operat.Manager.{RenovateJobIdentifier}
use mogenius_renovate_operat.Manager.Reads.{get_renovate_job}
use mogenius_renovate_operat.Manager.Tokens.{is_webhook_token_valid, is_webhook_signature_valid}
use mogenius_renovate_operat.Http.{
  Request, value_of, Reply, answered, panicked, status_unauthorized,
}

pub data Validity : Type 0 where
  valid : Validity
  invalid : Text → Validity
  crashed : Validity

-- The token of an Authorization header, `none` if the header is malformed.
bearer_parts : List Text → Option Text
bearer_parts (scheme ∷ token ∷ []) = if scheme == text "Bearer" then some token else none
bearer_parts _ = none

unfoldable pub bearer_token : Text → Option Text
unfolding bearer_parts
bearer_token auth_header =
    if has_prefix auth_header (text "Bearer ")
    then bearer_parts (split b' ' auth_header)
    else some auth_header

module _ (error_text : Error → Text) where
  unfoldable pub token_validity : Result Bool → Validity
  token_validity (ok true) = valid
  token_validity (ok false) = invalid (text "invalid token")
  token_validity (err panic) = crashed
  token_validity (err e) = invalid (error_text e)

unfoldable pub signature_validity : Result Bool → Validity
signature_validity (ok true) = valid
signature_validity (ok false) = invalid (text "invalid signature")
signature_validity (err panic) = crashed
signature_validity (err e) = invalid (text "invalid signature")

module _ {W : Type 0} (c : Client W) (error_text : Error → Text)
    (hmac_hex : Text → Text → Text) where
  unfoldable pub validate_token : RenovateJobIdentifier → Option Text → W → Validity × W
  unfolding token_validity
  validate_token job none w = (invalid (text "invalid authorization header format"), w)
  validate_token job (some token) w =
      let (r, w') = is_webhook_token_valid c job (trim_space token) w in
      (token_validity error_text r, w')

  unfoldable pub validate_bearer_token : RenovateJobIdentifier → Text → W → Validity × W
  unfolding validate_token bearer_token
  validate_bearer_token job auth_header w =
      if auth_header == []
      then (invalid (text "missing authorization header"), w)
      else validate_token job (bearer_token auth_header) w

  unfoldable pub validate_body : RenovateJobIdentifier → Text → Option Text → W → Validity × W
  unfolding signature_validity
  validate_body job signature none w = (invalid (text "failed to read request body"), w)
  validate_body job signature (some body) w =
      let (r, w') = is_webhook_signature_valid c hmac_hex job signature body w in
      (signature_validity r, w')

  unfoldable pub validate_signature : RenovateJobIdentifier → Text → Request → W → Validity × W
  unfolding validate_body
  validate_signature job signature r w =
      if signature == []
      then (invalid (text "missing signature header"), w)
      else validate_body job signature r.body w

-- What a handler does with a verdict: go on, answer 401, or crash.
unfoldable pub continue_if : {W : Type 0} → Validity × W → (W → Reply × W) → Reply × W
continue_if (valid, w) next = next w
continue_if (invalid reason, w) next = (answered status_unauthorized reason, w)
continue_if (crashed, w) next = (panicked, w)

abbrev pub deny : {W : Type 0} → Text → W → Reply × W
deny message w = (answered status_unauthorized message, w)

abbrev pub first_of_two : Text → Text → Text
first_of_two a b = if a == [] then b else a

module _ {W : Type 0} (c : Client W) (error_text : Error → Text) (hmac_hex : Text → Text → Text)
    (next : Request → W → Reply × W) (r : Request) where
  -- the part behind the test that authentication is enabled
  unfoldable pub check_credentials : RenovateJobIdentifier → W → Reply × W
  unfolding validate_bearer_token validate_signature continue_if value_of
  check_credentials job w =
      let auth_header =
        first_of_two (value_of (text "Authorization") r.headers)
          (value_of (text "X-Gitlab-Token") r.headers) in
      let signature =
        first_of_two (value_of (text "X-Hub-Signature-256") r.headers)
          (value_of (text "X-Forgejo-Signature") r.headers) in
      if not (auth_header == [])
      then continue_if (validate_bearer_token c error_text hmac_hex job auth_header w) (next r)
      else if not (signature == [])
      then continue_if (validate_signature c error_text hmac_hex job signature r w) (next r)
      else deny (text "no valid authentication method provided") w

  unfoldable pub check_authentication :
      RenovateJobIdentifier → Option RenovateWebhookAuth → W → Reply × W
  unfolding check_credentials
  check_authentication job none w = next r w
  check_authentication job (some auth) w =
      if auth.enabled then check_credentials job w else next r w

  unfoldable pub check_webhook : RenovateJobIdentifier → Option RenovateWebhook → W → Reply × W
  unfolding check_authentication
  check_webhook job none w = deny (text "webhook not enabled for this renovate job") w
  check_webhook job (some webhook) w =
      if webhook.enabled
      then check_authentication job webhook.authentication w
      else deny (text "webhook not enabled for this renovate job") w

  unfoldable pub check_job : RenovateJobIdentifier → Result RenovateJob → W → Reply × W
  unfolding check_webhook
  check_job job (err e) w = deny (text "renovate job not found") w
  check_job job (ok j) w = check_webhook job j.spec.webhook w

  unfoldable pub auth_middleware : W → Reply × W
  unfolding check_job get_renovate_job value_of
  auth_middleware w =
      let namespace = value_of (text "namespace") r.query in
      let job = value_of (text "job") r.query in
      let (found, w') = get_renovate_job c job namespace w in
      check_job (record { name = job; namespace = namespace }) found w'
