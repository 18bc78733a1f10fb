-- ===== src/Delivery/Result.antt =====
-- internal/delivery/result.go: what a delivery operation reports. Identifiers, instants and
-- texts of errors are not modelled.
use mailx.Base.{ℕ, Bool, true, false, Option, none, List, []}
use mailx.Base.Text.{Text}
use mailx.Errors.{
  Err, Stage, TransferError, Kind, dns_temporary, transfer_temporary, context, unset,
}
use mailx.Transfer.{TransferResult}
use mailx.Delivery.Candidates.{Mx}

pub record Attempt : Type 0 where
  pub mx : Mx
  pub destination : Text
  pub transfer : TransferResult
  pub transfer_err : Option (TransferError × Err)

-- `Transport`: "", "direct" or "relay".
pub data Transport : Type 0 where
  undecided direct relay : Transport

-- `failure_stage` is none where Go has "".
pub record DeliveryResult : Type 0 where
  pub domain : Text
  pub transport : Transport
  pub kind : Kind
  pub accepted : Bool
  pub final_code : ℕ
  pub enhanced_status : Text
  pub remote_message : Text
  pub failure_stage : Option Stage
  pub recipient : Text
  pub quit_error : Option Err
  pub attempts : List Attempt
  pub mx_candidates : List Mx
  pub effective_hostname : Text
  pub effective_source_ip : Text
  pub effective_member_id : Text

unfoldable pub blank_result : Text → DeliveryResult
blank_result domain = record {
  domain = domain;
  transport = undecided;
  kind = unset;
  accepted = false;
  final_code = 0;
  enhanced_status = [];
  remote_message = [];
  failure_stage = none;
  recipient = [];
  quit_error = none;
  attempts = [];
  mx_candidates = [];
  effective_hostname = [];
  effective_source_ip = [];
  effective_member_id = [];
}

-- `Result.Temporary`
unfoldable pub temporary_kind : Kind → Bool
temporary_kind dns_temporary = true
temporary_kind transfer_temporary = true
temporary_kind context = true
temporary_kind _ = false
