-- ===== src/Manager/Tokens.antt =====
-- The webhook credentials of a job in src/internal/crdManager/renovateJobManager.go. `hmac_hex` is the
-- hexadecimal HMAC-SHA256 of a message under a key.
pub mod Split
pub mod Valid
pub mod Panics
use mogenius_renovate_operat.Prelude.{
  Bool, true, false, Option, none, some, List, [], ◌∷◌, ◌++◌, if◌then◌else◌,
}
use mogenius_renovate_operat.Prelude.Text.{Text, text, ◌==◌, contains, split}
use mogenius_renovate_operat.Prelude.Assoc.{Assoc, lookup}
use mogenius_renovate_operat.Api.{RenovateSecretKeyReference, RenovateWebhookAuth, RenovateJob}
use mogenius_renovate_operat.Kube.{Io, Client, other_error, panic, ◌>>=◌, pure, raise}
use mogenius_renovate_operat.Manager.{RenovateJobIdentifier, load_renovate_job}

-- Spec.Webhook.Authentication, if neither pointer is nil and it is enabled.
unfoldable pub enabled_authentication : RenovateJob → Option RenovateWebhookAuth
enabled_authentication j = elim j.spec.webhook [
  | none ↦ none
  | some webhook ↦ elim webhook.authentication [
    | none ↦ none
    | some auth ↦ if auth.enabled then some auth else none
  ]
]

module _ {W : Type 0} (c : Client W) where
  tokens_of : Option Text → Io W (List Text)
  tokens_of none = raise (other_error (text "secret key not found in secret"))
  tokens_of (some auth_data) = pure (split b',' auth_data)

  -- A nil SecretRef is dereferenced.
  tokens_at : Option RenovateSecretKeyReference → Text → Io W (List Text)
  unfolding tokens_of
  tokens_at none namespace = raise panic
  tokens_at (some ref) namespace = do
    secret ← c.get_secret ref.name namespace
    tokens_of (lookup ref.key secret)

  unfoldable pub get_renovate_job_tokens : RenovateJob → RenovateWebhookAuth → Io W (List Text)
  unfolding tokens_at
  get_renovate_job_tokens j auth = tokens_at auth.secret_ref j.namespace

  -- Neither validator accepts anything while authentication is not enabled.
  unfoldable pub check_tokens :
      (List Text → Bool) → RenovateJob → Option RenovateWebhookAuth → Io W Bool
  unfolding get_renovate_job_tokens
  check_tokens test j none = pure false
  check_tokens test j (some auth) = do tokens ← get_renovate_job_tokens j auth; pure (test tokens)

  unfoldable pub is_webhook_token_valid : RenovateJobIdentifier → Text → Io W Bool
  unfolding load_renovate_job enabled_authentication check_tokens
  is_webhook_token_valid job token = do
    j ← load_renovate_job c job.name job.namespace
    check_tokens (λ tokens. contains tokens token) j (enabled_authentication j)

module _ (hmac_hex : Text → Text → Text) where
  unfoldable pub compute_hmac256 : Text → Text → Text
  compute_hmac256 message secret = text "sha256=" ++ hmac_hex message secret

  -- the loop over the tokens
  unfoldable pub any_signs : Text → Text → List Text → Bool
  unfolding compute_hmac256
  any_signs signature body [] = false
  any_signs signature body (token ∷ tokens) =
      if signature == compute_hmac256 body token then true else any_signs signature body tokens

module _ {W : Type 0} (c : Client W) (hmac_hex : Text → Text → Text) where
  unfoldable pub is_webhook_signature_valid : RenovateJobIdentifier → Text → Text → Io W Bool
  unfolding load_renovate_job enabled_authentication check_tokens any_signs
  is_webhook_signature_valid job signature body = do
    j ← load_renovate_job c job.name job.namespace
    check_tokens c (any_signs hmac_hex signature body) j (enabled_authentication j)
