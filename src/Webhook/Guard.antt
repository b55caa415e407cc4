-- ===== src/Webhook/Guard.antt =====
-- What the authentication of src/webhook/server.go guarantees to the handlers behind it.
use mogenius_renovate_operat.Prelude.{
  ◌≡◌, refl, ◌⊎◌, inl, inr, Bool, true, false, Option, none, some, map, [], ◌++◌, Bool-cases,
  Option-cases, if◌then◌else◌,
}
use mogenius_renovate_operat.Prelude.Text.{Text, text, ◌==◌, eq→≡, contains, trim_space}
use mogenius_renovate_operat.Api.{RenovateWebhook, RenovateWebhookAuth, RenovateJob}
use mogenius_renovate_operat.Kube.{Error, panic, Result, ok, err, Client}
use mogenius_renovate_operat.Manager.Tokens.{is_webhook_token_valid, is_webhook_signature_valid}
use mogenius_renovate_operat.Manager.Tokens.Valid.{Accepted, token-Accepted, signature-Accepted}
use mogenius_renovate_operat.Manager.Tokens.Panics.{
  NeverPanics, NilReference, token-NilReference, signature-NilReference,
}
use mogenius_renovate_operat.Http.{
  Request, value_of, Reply, answered, panicked, status_unauthorized,
}
use mogenius_renovate_operat.Webhook.Server.{
  bearer_token, token_validity, signature_validity, validate_token, validate_bearer_token,
  validate_body, validate_signature, continue_if, first_of_two, check_credentials,
  check_authentication, check_webhook, check_job, auth_middleware,
}
use mogenius_renovate_operat.Webhook.Effects.{queried_job}

abbrev pub auth_header : Request → Text
auth_header r =
    first_of_two (value_of (text "Authorization") r.headers)
      (value_of (text "X-Gitlab-Token") r.headers)

abbrev pub signature_header : Request → Text
signature_header r =
    first_of_two (value_of (text "X-Hub-Signature-256") r.headers)
      (value_of (text "X-Forgejo-Signature") r.headers)

module _ {W : Type 0} (c : Client W) (hmac_hex : Text → Text → Text) (r : Request) where
  -- The request proves, in the world `w`, that it knows a token of the job: it carries the token, or,
  -- if it carries none, a signature of its body under a token.
  pub data Credentials (w : W) : Type 0 where
    by_token :
        (token : Text)
        → bearer_token (auth_header r) ≡ some token
        → Accepted c (queried_job r) (λ tokens. contains tokens (trim_space token)) w
        → Credentials w
    by_signature :
        (body : Text)
        → auth_header r ≡ []
        → r.body ≡ some body
        → Accepted c
            (queried_job r)
            (λ tokens.
              contains
                (map (λ token. text "sha256=" ++ hmac_hex body token) tokens)
                (signature_header r))
            w
        → Credentials w

  -- The job that the query names is stored with its webhook enabled, and either its authentication is
  -- not enabled or the request has credentials for it.
  pub record MayPass (w : W) : Type 0 where
    pub job : RenovateJob
    pub webhook : RenovateWebhook
    pub loaded : (c.get (queried_job r).name (queried_job r).namespace w).0 ≡ ok job
    pub has_webhook : job.spec.webhook ≡ some webhook
    pub is_enabled : webhook.enabled ≡ true
    pub authorized :
        (webhook.authentication ≡ none)
        ⊎ ((auth : RenovateWebhookAuth) × (webhook.authentication ≡ some auth)
            × (auth.enabled ≡ false))
        ⊎ Credentials (c.get (queried_job r).name (queried_job r).namespace w).1

module _ {W : Type 0} (r : Request) where
  -- A filter in front of a handler `next`, whatever it is: it hands the request on, in a world `v` and
  -- only if `P` holds, and then answers what the handler answers; or it never calls the handler, and
  -- answers 401, or crashes, only if `Q` holds.
  pub data Gate (P Q : Type 0) (filter : (Request → W → Reply × W) → Reply × W) : Type 0 where
    passed :
        (v : W) → P → ((next : Request → W → Reply × W) → filter next ≡ next r v) → Gate P Q filter
    refused :
        (v : W) (message : Text)
        → ((next : Request → W → Reply × W)
            → filter next ≡ (answered status_unauthorized message, v))
        → Gate P Q filter
    crashes :
        (v : W)
        → Q
        → ((next : Request → W → Reply × W) → filter next ≡ (panicked, v))
        → Gate P Q filter

  Gate-map :
      {P P' Q : Type 0} {filter : (Request → W → Reply × W) → Reply × W}
      → (P → P')
      → Gate P Q filter
      → Gate P' Q filter
  Gate-map f (passed v p e) = passed v (f p) e
  Gate-map f (refused v m e) = refused v m e
  Gate-map f (crashes v q e) = crashes v q e

  Gate-if :
      {P Q : Type 0} (b : Bool) (yes_filter no_filter : (Request → W → Reply × W) → Reply × W)
      → (b ≡ true → Gate P Q yes_filter)
      → (b ≡ false → Gate P Q no_filter)
      → Gate P Q (λ next. if b then yes_filter next else no_filter next)
  Gate-if true y n f g = f refl
  Gate-if false y n f g = g refl

module _ {W : Type 0} (c : Client W) (never : NeverPanics c) (error_text : Error → Text)
    (hmac_hex : Text → Text → Text) (r : Request) where
  token-Gate :
      (token : Text) (w : W) (x : Result Bool)
      → bearer_token (auth_header r) ≡ some token
      → (is_webhook_token_valid c (queried_job r) (trim_space token) w).0 ≡ x
      → let w' = (is_webhook_token_valid c (queried_job r) (trim_space token) w).1 in
        Gate {W = W} r
          (Credentials c hmac_hex r w)
          (NilReference c (queried_job r) w)
          (λ next. continue_if (token_validity error_text x, w') (next r))
  unfolding token_validity continue_if
  token-Gate token w (ok true) b e =
      passed _ (by_token token b (token-Accepted c (queried_job r) w (trim_space token) e))
        (λ next. refl)
  token-Gate token w (ok false) b e = refused _ _ (λ next. refl)
  token-Gate token w (err panic) b e =
      crashes _ (token-NilReference c never (queried_job r) (trim_space token) w e) (λ next. refl)
  token-Gate token w (err x) b e = refused _ _ (λ next. refl)

  signature-Gate :
      (body : Text) (w : W) (x : Result Bool)
      → auth_header r ≡ []
      → r.body ≡ some body
      → (is_webhook_signature_valid c hmac_hex (queried_job r) (signature_header r) body w).0 ≡ x
      → let w' =
          (is_webhook_signature_valid c hmac_hex (queried_job r) (signature_header r) body w).1 in
        Gate {W = W} r
          (Credentials c hmac_hex r w)
          (NilReference c (queried_job r) w)
          (λ next. continue_if (signature_validity x, w') (next r))
  unfolding signature_validity continue_if
  signature-Gate body w (ok true) h b e =
      passed _
        (by_signature body h b
          (signature-Accepted c (queried_job r) w hmac_hex (signature_header r) body e))
        (λ next. refl)
  signature-Gate body w (ok false) h b e = refused _ _ (λ next. refl)
  signature-Gate body w (err panic) h b e =
      crashes _
        (signature-NilReference c never (queried_job r) hmac_hex (signature_header r) body w e)
        (λ next. refl)
  signature-Gate body w (err x) h b e = refused _ _ (λ next. refl)

  body-Gate :
      (o : Option Text) (w : W)
      → auth_header r ≡ []
      → r.body ≡ o
      → Gate {W = W} r (Credentials c hmac_hex r w) (NilReference c (queried_job r) w) (λ next.
        continue_if
          (validate_body c error_text hmac_hex (queried_job r) (signature_header r) o w)
          (next r))
  unfolding validate_body continue_if
  body-Gate none w h b = refused _ _ (λ next. refl)
  body-Gate (some body) w h b = signature-Gate body w _ h b refl

  check_credentials-Gate :
      (w : W)
      → Gate {W = W} r
          (Credentials c hmac_hex r w)
          (NilReference c (queried_job r) w)
          (λ next. check_credentials c error_text hmac_hex next r (queried_job r) w)
  unfolding check_credentials validate_bearer_token validate_signature
  check_credentials-Gate w = elim (Bool-cases (auth_header r == [])) [
    | inr h ↦ rw h (elim (Option-cases (bearer_token (auth_header r))) [
      | inl b ↦ rw (b, validate_token) (refused _ _ (λ next. unfold continue_if in refl))
      | inr (token, b) ↦ rw (b, validate_token) (token-Gate token w _ b refl)
    ])
    | inl h ↦ rw h (elim (Bool-cases (signature_header r == [])) [
      | inl s ↦ rw s (refused _ _ (λ next. refl))
      | inr s ↦ rw s (body-Gate r.body w (eq→≡ _ _ h) refl)
    ])
  ]

  Authorized : Option RenovateWebhookAuth → W → Type 0
  Authorized o w =
      (o ≡ none)
      ⊎ ((auth : RenovateWebhookAuth) × (o ≡ some auth) × (auth.enabled ≡ false))
      ⊎ Credentials c hmac_hex r w

  authentication-Gate :
      (o : Option RenovateWebhookAuth) (w : W)
      → Gate {W = W} r
          (Authorized o w)
          (NilReference c (queried_job r) w)
          (λ next. check_authentication c error_text hmac_hex next r (queried_job r) o w)
  unfolding check_authentication Authorized
  authentication-Gate none w = passed w (inl refl) (λ next. refl)
  authentication-Gate (some auth) w =
      Gate-if r auth.enabled _ _ (λ e. Gate-map r (λ k. inr (inr k)) (check_credentials-Gate w))
        (λ e. passed w (inr (inl (auth, refl, e))) (λ next. refl))

  webhook-Gate :
      (o : Option RenovateWebhook) (w : W)
      → Gate {W = W} r
          ((webhook : RenovateWebhook) × (o ≡ some webhook)
            × (webhook.enabled ≡ true)
            × Authorized webhook.authentication w)
          (NilReference c (queried_job r) w)
          (λ next. check_webhook c error_text hmac_hex next r (queried_job r) o w)
  unfolding check_webhook
  webhook-Gate none w = refused _ _ (λ next. refl)
  webhook-Gate (some webhook) w =
      Gate-if r webhook.enabled _ _
        (λ e.
          Gate-map r (λ a. (webhook, refl, e, a)) (authentication-Gate webhook.authentication w))
        (λ e. refused _ _ (λ next. refl))

  job-Gate :
      (w : W) (x : Result RenovateJob)
      → (c.get (queried_job r).name (queried_job r).namespace w).0 ≡ x
      → let v = (c.get (queried_job r).name (queried_job r).namespace w).1 in
        Gate {W = W} r
          (MayPass c hmac_hex r w)
          (NilReference c (queried_job r) v)
          (λ next. check_job c error_text hmac_hex next r (queried_job r) x v)
  unfolding check_job Authorized
  job-Gate w (err e) h = refused _ _ (λ next. refl)
  job-Gate w (ok j) h =
      Gate-map r
        (λ a. record {
          job = j;
          webhook = a.0;
          loaded = h;
          has_webhook = a.1;
          is_enabled = a.2;
          authorized = a.3;
        })
        (webhook-Gate j.spec.webhook _)

  -- The webhook server calls a handler only for a job that is stored with its webhook enabled, and only
  -- with credentials for that job unless the job's authentication is not enabled. Any other request is
  -- answered 401, or crashes if the authentication of the job is enabled and refers to no secret, and no
  -- handler sees it. Client calls do not panic.
  pub auth_middleware-Gate :
      (w : W)
      → Gate {W = W} r
          (MayPass c hmac_hex r w)
          (NilReference c
            (queried_job r)
            (c.get (queried_job r).name (queried_job r).namespace w).1)
          (λ next. auth_middleware c error_text hmac_hex next r w)
  unfolding auth_middleware
  auth_middleware-Gate w = job-Gate w _ refl
