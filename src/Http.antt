-- ===== src/Http.antt =====
-- Requests and answers, as far as the handlers of the webhook server and of the UI read and write them.
-- `body` is what io.ReadAll gives, `none` if it fails. A missing query value or header is the empty
-- text, as for Query().Get and Header.Get.
use mogenius_renovate_operat.Prelude.{ℕ, Option, none, some, []}
use mogenius_renovate_operat.Prelude.Text.{Text}
use mogenius_renovate_operat.Prelude.Assoc.{Assoc, lookup}
use mogenius_renovate_operat.Kube.{Error, panic}

pub record Request : Type 0 where
  pub query : Assoc Text
  pub headers : Assoc Text
  pub body : Option Text

abbrev pub or_empty : Option Text → Text
or_empty none = []
or_empty (some s) = s

-- Query().Get, Header.Get
unfoldable pub value_of : Text → Assoc Text → Text
value_of key m = or_empty (lookup key m)

-- An answer with its status code and its message, or a handler that panicked.
pub data Reply : Type 0 where
  answered : ℕ → Text → Reply
  panicked : Reply

abbrev pub status_ok : ℕ
status_ok = 200

abbrev pub status_accepted : ℕ
status_accepted = 202

abbrev pub status_bad_request : ℕ
status_bad_request = 400

abbrev pub status_unauthorized : ℕ
status_unauthorized = 401

abbrev pub status_forbidden : ℕ
status_forbidden = 403

abbrev pub status_internal_server_error : ℕ
status_internal_server_error = 500

-- What becomes of an error that the handler answers with `status`.
abbrev pub failed_with : ℕ → Text → Error → Reply
failed_with status message panic = panicked
failed_with status message _ = answered status message
