-- ===== src/Errors.antt =====
-- The `error` values of the delivery path, as the chains that `errors.Is` and `errors.As` walk:
-- internal/smtp/client_error.go, internal/transfer/transfer.go, internal/dns/errors.go and
-- internal/delivery/result.go. An error's text is not modelled.
use mailx.Base.{ℕ, Bool, true, false, Option, none, some}
use mailx.Base.Text.{Text}

-- internal/smtp/client_error.go: each protocol step the outbound client can fail at. `unknown`
-- is the literal `smtp.Stage("unknown")` of internal/transfer.
pub data Stage : Type 0 where
  dial greeting ehlo helo start_tls tls auth ehlo_tls mail_from rcpt_to data_command message : Stage
  data_response quit invalid_input unknown : Stage

-- `*smtp.DeliveryError`, without its `Err`.
pub record SmtpError : Type 0 where
  pub stage : Stage
  pub code : ℕ
  pub enhanced : Text
  pub remote : Text
  pub recipient : Text
  pub temporary : Bool

-- `*transfer.TransferError`, without its `Err`.
pub record TransferError : Type 0 where
  pub destination : Text
  pub stage : Stage
  pub temporary : Bool
  pub recipient : Text
  pub code : ℕ
  pub enhanced : Text

-- internal/dns/errors.go: `dns.Kind`.
pub data LookupKind : Type 0 where
  invalid_domain not_found null_mx temporary resolver_failure : LookupKind

-- internal/delivery/result.go: `delivery.Kind`; `unset` is the empty string.
pub data Kind : Type 0 where
  accepted invalid_request dns_not_found dns_null_mx dns_temporary dns_failure : Kind
  transfer_temporary transfer_permanent context unset : Kind

-- `*delivery.Error`, without its `Err`.
pub record DeliveryError : Type 0 where
  pub kind : Kind
  pub domain : Text
  pub temporary : Bool

-- What the errors of `context` are.
pub data ContextErr : Type 0 where
  canceled deadline_exceeded : ContextErr

-- An error and what it wraps. `other` wraps nothing and is none of those named here; it stands
-- for a nil `Err` field too. `nil_transfer` is a nil `*TransferError` in a non-nil `error`.
pub data Err : Type 0 where
  other : Err
  context_err : ContextErr → Err
  unknown_member : Err
  nil_transfer : Err
  smtp : SmtpError → Err → Err
  transfer : TransferError → Err → Err
  lookup : LookupKind → Err → Err
  delivery : DeliveryError → Err → Err

-- `errors.Is(err, context.Canceled) || errors.Is(err, context.DeadlineExceeded)`. At
-- `nil_transfer` the Go call would dereference nil.
unfoldable pub is_context : Err → Bool
is_context other = false
is_context (context_err c) = true
is_context unknown_member = false
is_context nil_transfer = false
is_context (smtp i e) = is_context e
is_context (transfer i e) = is_context e
is_context (lookup k e) = is_context e
is_context (delivery i e) = is_context e

-- `errors.As(err, &te)` for a `*transfer.TransferError`.
unfoldable pub as_transfer : Err → Option (TransferError × Err)
as_transfer other = none
as_transfer (context_err c) = none
as_transfer unknown_member = none
as_transfer nil_transfer = none
as_transfer (smtp i e) = as_transfer e
as_transfer (transfer i e) = some (i, e)
as_transfer (lookup k e) = as_transfer e
as_transfer (delivery i e) = as_transfer e

-- `errors.As(err, &de)` for a `*smtp.DeliveryError`.
unfoldable pub as_smtp : Err → Option SmtpError
as_smtp other = none
as_smtp (context_err c) = none
as_smtp unknown_member = none
as_smtp nil_transfer = none
as_smtp (smtp i e) = some i
as_smtp (transfer i e) = as_smtp e
as_smtp (lookup k e) = as_smtp e
as_smtp (delivery i e) = as_smtp e

-- `errors.As(err, &le)` for a `*dns.LookupError`.
unfoldable pub as_lookup : Err → Option LookupKind
as_lookup other = none
as_lookup (context_err c) = none
as_lookup unknown_member = none
as_lookup nil_transfer = none
as_lookup (smtp i e) = as_lookup e
as_lookup (transfer i e) = as_lookup e
as_lookup (lookup k e) = some k
as_lookup (delivery i e) = as_lookup e

-- internal/delivery/result.go: `IsTemporary`, by `errors.As` for a `*delivery.Error`.
unfoldable pub is_temporary : Err → Bool
is_temporary other = false
is_temporary (context_err c) = false
is_temporary unknown_member = false
is_temporary nil_transfer = false
is_temporary (smtp i e) = is_temporary e
is_temporary (transfer i e) = is_temporary e
is_temporary (lookup k e) = is_temporary e
is_temporary (delivery i e) = i.temporary
