-- ===== src/Manager/Tokens/Valid.antt =====
-- Who passes the webhook validators of src/internal/crdManager/renovateJobManager.go.
use mogenius_renovate_operat.Prelude.{
  ◌≡◌, refl, Bool, true, Option, some, none, List, [], ◌∷◌, ◌++◌, map, arith, if◌then◌else◌, false,
  ap, ◌∙◌, sym,
}
use mathlib.Core.Path.{subst, fun_ext}
use mogenius_renovate_operat.Prelude.Text.{Text, text, contains, split, eq_iff}
use mogenius_renovate_operat.Prelude.Assoc.{Assoc, lookup}
use mogenius_renovate_operat.Api.{
  RenovateSecretKeyReference, RenovateWebhook, RenovateWebhookAuth, RenovateJob,
}
use mogenius_renovate_operat.Kube.Laws.{continue-ok}
use mogenius_renovate_operat.Kube.{ok, Client, ◌>>=◌}
use mogenius_renovate_operat.Manager.Tokens.Split.{ends}
use mogenius_renovate_operat.Manager.{RenovateJobIdentifier}
use mogenius_renovate_operat.Manager.Tokens.{
  enabled_authentication, tokens_of, tokens_at, check_tokens, is_webhook_token_valid,
  compute_hmac256, any_signs, is_webhook_signature_valid,
}

some-if :
    (b : Bool) (a : RenovateWebhookAuth) {auth : RenovateWebhookAuth}
    → (if b then some a else none) ≡ some auth
    → (b ≡ true) × (a ≡ auth)
some-if true a h = (refl, cc)
some-if false a h = cc

enabled_in :
    (o : Option RenovateWebhookAuth) {auth : RenovateWebhookAuth}
    → elim o [ none ↦ none | some a ↦ if a.enabled then some a else none ] ≡ some auth
    → (o ≡ some auth) × (auth.enabled ≡ true)
enabled_in none h = cc
enabled_in (some a) h =
    let (t, same) = some-if a.enabled a h in
    (ap some same, sym (ap (λ (z : RenovateWebhookAuth). z.enabled) same) ∙ t)

enabled_webhook :
    (o : Option RenovateWebhook) {auth : RenovateWebhookAuth}
    → elim o [
      | none ↦ none
      | some webhook ↦ elim webhook.authentication [
        | none ↦ none
        | some a ↦ if a.enabled then some a else none
      ]
    ]
      ≡ some auth
    → (webhook : RenovateWebhook) × (o ≡ some webhook)
      × (webhook.authentication ≡ some auth)
      × (auth.enabled ≡ true)
enabled_webhook none h = cc
enabled_webhook (some webhook) h =
    let (found, on) = enabled_in webhook.authentication h in (webhook, refl, found, on)

-- What enabled_authentication finds is an authentication of the job's webhook that is enabled.
pub enabled_authentication-some :
    (j : RenovateJob) {auth : RenovateWebhookAuth}
    → enabled_authentication j ≡ some auth
    → (webhook : RenovateWebhook) × (j.spec.webhook ≡ some webhook)
      × (webhook.authentication ≡ some auth)
      × (auth.enabled ≡ true)
unfolding enabled_authentication
enabled_authentication-some j h = enabled_webhook j.spec.webhook h

-- The job was loaded, its webhook authentication is enabled and refers to a secret, the secret was
-- read in the job's namespace and has the key, and `test` holds of the comma-separated tokens in it.
pub record Accepted {W : Type 0} (c : Client W) (job : RenovateJobIdentifier)
    (test : List Text → Bool) (w : W) : Type 0 where
  pub found : RenovateJob
  pub auth : RenovateWebhookAuth
  pub ref : RenovateSecretKeyReference
  pub secret : Assoc Text
  pub auth_data : Text
  pub loaded : (c.get job.name job.namespace w).0 ≡ ok found
  pub webhook : RenovateWebhook
  pub has_webhook : found.spec.webhook ≡ some webhook
  pub has_auth : webhook.authentication ≡ some auth
  pub enabled : auth.enabled ≡ true
  pub referred : auth.secret_ref ≡ some ref
  pub read :
      (c.get_secret ref.name found.namespace (c.get job.name job.namespace w).1).0 ≡ ok secret
  pub has_key : lookup ref.key secret ≡ some auth_data
  pub passed : test (split b',' auth_data) ≡ true

module _ {W : Type 0} (c : Client W) where
  tokens_of-ok :
      (o : Option Text) (w : W) {tokens : List Text}
      → (tokens_of c o w).0 ≡ ok tokens
      → (auth_data : Text) × (o ≡ some auth_data) × (tokens ≡ split b',' auth_data)
  unfolding tokens_of
  tokens_of-ok none w h = cc
  tokens_of-ok (some d) w h = (d, refl, cc)

  tokens_at-ok :
      (o : Option RenovateSecretKeyReference) (namespace : Text) (w : W) {tokens : List Text}
      → (tokens_at c o namespace w).0 ≡ ok tokens
      → (ref : RenovateSecretKeyReference) × (secret : Assoc Text) × (auth_data : Text) × (o
          ≡ some ref)
        × ((c.get_secret ref.name namespace w).0 ≡ ok secret)
        × (lookup ref.key secret ≡ some auth_data)
        × (tokens ≡ split b',' auth_data)
  unfolding tokens_at
  tokens_at-ok none namespace w h = cc
  tokens_at-ok (some ref) namespace w h =
      let g = c.get_secret ref.name namespace w in
      let (secret, read, h') =
        continue-ok g.0 (λ (secret : Assoc Text). tokens_of c (lookup ref.key secret)) g.1 h in
      let (auth_data, has_key, e) = tokens_of-ok (lookup ref.key secret) g.1 h' in
      (ref, secret, auth_data, refl, read, has_key, e)

  check_tokens-ok :
      (test : List Text → Bool) (j : RenovateJob) (o : Option RenovateWebhookAuth) (w : W)
      → (check_tokens c test j o w).0 ≡ ok true
      → (auth : RenovateWebhookAuth) × (ref : RenovateSecretKeyReference) × (secret : Assoc Text)
        × (auth_data : Text) × (o ≡ some auth)
        × (auth.secret_ref ≡ some ref)
        × ((c.get_secret ref.name j.namespace w).0 ≡ ok secret)
        × (lookup ref.key secret ≡ some auth_data)
        × (test (split b',' auth_data) ≡ true)
  unfolding check_tokens
  check_tokens-ok test j none w h = cc
  check_tokens-ok test j (some auth) w h =
      let t = tokens_at c auth.secret_ref j.namespace w in
      let (tokens, got, h') =
        continue-ok t.0 (λ (tokens : List Text) (v : W). (ok (test tokens), v)) t.1 h in
      let (ref, secret, auth_data, r, s, l, e) = tokens_at-ok auth.secret_ref j.namespace w got in
      (auth, ref, secret, auth_data, refl, r, s, l, cc)

-- The loop over the tokens looks for the signature among those of the tokens.
any_signs-contains :
    (hmac_hex : Text → Text → Text) (signature body : Text) (tokens : List Text)
    → any_signs hmac_hex signature body tokens
      ≡ contains (map (compute_hmac256 hmac_hex body) tokens) signature
unfolding any_signs contains
any_signs-contains hmac_hex signature body [] = refl
any_signs-contains hmac_hex signature body (token ∷ tokens) = ground (
  arith,
  any_signs-contains hmac_hex signature body tokens,
  eq_iff signature (compute_hmac256 hmac_hex body token),
  eq_iff (compute_hmac256 hmac_hex body token) signature,
)

module _ {W : Type 0} (c : Client W) (job : RenovateJobIdentifier) (w : W) where
  checked-Accepted :
      (test : List Text → Bool)
      → ((c.get job.name job.namespace >>= λ j. check_tokens c test j (enabled_authentication j))
          w).0
        ≡ ok true
      → Accepted c job test w
  checked-Accepted test h =
      let g = c.get job.name job.namespace w in
      let (j, loaded, h') =
        continue-ok g.0 (λ (j : RenovateJob). check_tokens c test j (enabled_authentication j)) g.1
          h in
      let (auth, ref, secret, auth_data, e, r, s, l, t) =
        check_tokens-ok c test j (enabled_authentication j) g.1 h' in
      let k = enabled_authentication-some j e in
      record {
        found = j;
        auth = auth;
        ref = ref;
        secret = secret;
        auth_data = auth_data;
        loaded = loaded;
        webhook = k.0;
        has_webhook = k.1;
        has_auth = k.2;
        enabled = k.3;
        referred = r;
        read = s;
        has_key = l;
        passed = t;
      }

  -- A webhook token is accepted only if authentication is enabled for the job and the token is one of
  -- the comma-separated tokens of the job's secret.
  pub token-Accepted :
      (token : Text)
      → (is_webhook_token_valid c job token w).0 ≡ ok true
      → Accepted c job (λ tokens. contains tokens token) w
  unfolding is_webhook_token_valid
  token-Accepted token h = checked-Accepted (λ tokens. contains tokens token) h

  -- A webhook signature is accepted only if authentication is enabled for the job and the signature is
  -- that of the body under one of the comma-separated tokens of the job's secret.
  pub signature-Accepted :
      (hmac_hex : Text → Text → Text) (signature body : Text)
      → (is_webhook_signature_valid c hmac_hex job signature body w).0 ≡ ok true
      → Accepted c job
          (λ tokens.
            contains (map (λ token. text "sha256=" ++ hmac_hex body token) tokens) signature)
          w
  unfolding is_webhook_signature_valid compute_hmac256
  signature-Accepted hmac_hex signature body h =
      checked-Accepted (λ tokens. contains (map (compute_hmac256 hmac_hex body) tokens) signature)
        (subst
          (λ t.
            ((c.get job.name job.namespace >>= λ j. check_tokens c t j (enabled_authentication j))
              w).0
            ≡ ok true)
          (fun_ext (any_signs-contains hmac_hex signature body)) h)

empty_signs :
    (hmac_hex : Text → Text → Text) (body : Text) (tokens : List Text)
    → contains tokens [] ≡ true
    → any_signs hmac_hex (compute_hmac256 hmac_hex body []) body tokens ≡ true
unfolding any_signs contains
empty_signs hmac_hex body [] h = cc
empty_signs hmac_hex body (token ∷ tokens) h = ground (
  arith,
  empty_signs hmac_hex body tokens,
  eq_iff token [],
  eq_iff (compute_hmac256 hmac_hex body []) (compute_hmac256 hmac_hex body token),
)

-- If the token list of the secret ends in a comma, the signature under the empty key, which anybody
-- can compute, is among those that the loop accepts, whatever the body.
pub trailing_comma_signs :
    (hmac_hex : Text → Text → Text) (body secret_data : Text)
    → any_signs hmac_hex
        (compute_hmac256 hmac_hex body [])
        body
        (split b',' (secret_data ++ b',' ∷ []))
      ≡ true
trailing_comma_signs hmac_hex body secret_data =
    empty_signs hmac_hex body (split b',' (secret_data ++ b',' ∷ [])) (ends b',' secret_data)
