-- ===== src/Manager/Tokens/Panics.antt =====
-- When the webhook validators of src/internal/crdManager/renovateJobManager.go panic.
use mogenius_renovate_operat.Prelude.{◌≡◌, ◌≢◌, refl, Bool, true, Option, some, none, List}
use mogenius_renovate_operat.Prelude.Text.{Text, contains}
use mogenius_renovate_operat.Prelude.Assoc.{Assoc, lookup}
use mogenius_renovate_operat.Api.{
  RenovateSecretKeyReference, RenovateWebhook, RenovateWebhookAuth, RenovateJob,
}
use mogenius_renovate_operat.Kube.{Result, ok, err, panic, continue, Io, Client, ◌>>=◌}
use mogenius_renovate_operat.Manager.{RenovateJobIdentifier}
use mogenius_renovate_operat.Manager.Tokens.{
  enabled_authentication, tokens_of, tokens_at, check_tokens, is_webhook_token_valid, any_signs,
  is_webhook_signature_valid,
}
use mogenius_renovate_operat.Manager.Tokens.Valid.{enabled_authentication-some}

-- A client call answers, and does not end in a nil dereference.
pub record NeverPanics {W : Type 0} (c : Client W) : Type 0 where
  pub get : (name namespace : Text) (w : W) → (c.get name namespace w).0 ≢ err panic
  pub get_secret : (name namespace : Text) (w : W) → (c.get_secret name namespace w).0 ≢ err panic

-- The job was loaded, and its webhook authentication is enabled but refers to no secret.
pub record NilReference {W : Type 0} (c : Client W) (job : RenovateJobIdentifier) (w : W)
    : Type 0 where
  pub found : RenovateJob
  pub webhook : RenovateWebhook
  pub auth : RenovateWebhookAuth
  pub loaded : (c.get job.name job.namespace w).0 ≡ ok found
  pub has_webhook : found.spec.webhook ≡ some webhook
  pub has_auth : webhook.authentication ≡ some auth
  pub enabled : auth.enabled ≡ true
  pub no_reference : auth.secret_ref ≡ none

continue-panic :
    {W A B : Type 0} (r : Result A) (f : A → Io W B) (w : W)
    → r ≢ err panic
    → (continue r f w).0 ≡ err panic
    → (a : A) × (r ≡ ok a) × ((f a w).0 ≡ err panic)
continue-panic (ok a) f w n h = (a, refl, h)
continue-panic (err e) f w n h = absurd (n cc)

tested-panic :
    {W A B : Type 0} (r : Result A) (f : A → B) (w : W)
    → (continue r (λ a (v : W). (ok (f a), v)) w).0 ≡ err panic
    → r ≡ err panic
tested-panic (ok a) f w h = cc
tested-panic (err e) f w h = cc

module _ {W : Type 0} (c : Client W) (never : NeverPanics c) where
  tokens_of-no_panic : (o : Option Text) (w : W) → (tokens_of c o w).0 ≢ err panic
  unfolding tokens_of
  tokens_of-no_panic none w h = cc
  tokens_of-no_panic (some d) w h = cc

  tokens_at-panic :
      (o : Option RenovateSecretKeyReference) (namespace : Text) (w : W)
      → (tokens_at c o namespace w).0 ≡ err panic
      → o ≡ none
  unfolding tokens_at tokens_of
  tokens_at-panic none namespace w h = refl
  tokens_at-panic (some ref) namespace w h =
      let g = c.get_secret ref.name namespace w in
      let (secret, read, h') =
        continue-panic g.0 (λ (secret : Assoc Text). tokens_of c (lookup ref.key secret)) g.1
          (never.get_secret ref.name namespace w) h in
      absurd (tokens_of-no_panic (lookup ref.key secret) g.1 h')

  check_tokens-panic :
      (test : List Text → Bool) (j : RenovateJob) (o : Option RenovateWebhookAuth) (w : W)
      → (check_tokens c test j o w).0 ≡ err panic
      → (auth : RenovateWebhookAuth) × (o ≡ some auth) × (auth.secret_ref ≡ none)
  unfolding check_tokens
  check_tokens-panic test j none w h = cc
  check_tokens-panic test j (some auth) w h =
      let t = tokens_at c auth.secret_ref j.namespace w in
      (auth, refl, tokens_at-panic auth.secret_ref j.namespace w (tested-panic t.0 test t.1 h))

  -- A validator panics only on an enabled authentication that refers to no secret.
  pub checked-NilReference :
      (job : RenovateJobIdentifier) (test : List Text → Bool) (w : W)
      → ((c.get job.name job.namespace >>= λ j. check_tokens c test j (enabled_authentication j))
          w).0
        ≡ err panic
      → NilReference c job w
  checked-NilReference job test w h =
      let g = c.get job.name job.namespace w in
      let (j, loaded, h') =
        continue-panic g.0 (λ (j : RenovateJob). check_tokens c test j (enabled_authentication j))
          g.1 (never.get job.name job.namespace w) h in
      let (auth, e, nil) = check_tokens-panic test j (enabled_authentication j) g.1 h' in
      let k = enabled_authentication-some j e in
      record {
        found = j;
        webhook = k.0;
        auth = auth;
        loaded = loaded;
        has_webhook = k.1;
        has_auth = k.2;
        enabled = k.3;
        no_reference = nil;
      }

  pub token-NilReference :
      (job : RenovateJobIdentifier) (token : Text) (w : W)
      → (is_webhook_token_valid c job token w).0 ≡ err panic
      → NilReference c job w
  unfolding is_webhook_token_valid
  token-NilReference job token w h = checked-NilReference job (λ tokens. contains tokens token) w h

  pub signature-NilReference :
      (job : RenovateJobIdentifier) (hmac_hex : Text → Text → Text) (signature body : Text) (w : W)
      → (is_webhook_signature_valid c hmac_hex job signature body w).0 ≡ err panic
      → NilReference c job w
  unfolding is_webhook_signature_valid
  signature-NilReference job hmac_hex signature body w h =
      checked-NilReference job (any_signs hmac_hex signature body) w h
