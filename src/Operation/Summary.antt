-- ===== src/Operation/Summary.antt =====
-- `OperationSummary` and `OperationStatus` of src/core/operation.rs.
use scriptmetakit.Chars.{Text, codes}
use scriptmetakit.Prelude.{ℕ, Bool, true, false, Option, none, some}

pub data OperationStatus : Type 0 where
  finished_status cancelled_status timed_out_status partial_status : OperationStatus

pub as_str : OperationStatus → Text
as_str finished_status = codes "finished"
as_str cancelled_status = codes "cancelled"
as_str timed_out_status = codes "timed_out"
as_str partial_status = codes "partial"

pub record OperationSummary : Type 0 where
  pub status : OperationStatus
  pub total_units : ℕ
  pub completed_units : ℕ
  pub failed_units : ℕ
  pub is_cancelled : Bool
  pub is_timed_out : Bool
  pub reason_code : Option Text
  pub message : Option Text

pub finished : ℕ → ℕ → ℕ → OperationSummary
finished total_units completed_units failed_units = record {
  status = finished_status;
  total_units = total_units;
  completed_units = completed_units;
  failed_units = failed_units;
  is_cancelled = false;
  is_timed_out = false;
  reason_code = none;
  message = none;
}

pub cancelled : ℕ → ℕ → ℕ → OperationSummary
cancelled total_units completed_units failed_units = record {
  status = cancelled_status;
  total_units = total_units;
  completed_units = completed_units;
  failed_units = failed_units;
  is_cancelled = true;
  is_timed_out = false;
  reason_code = some (codes "operation_cancelled");
  message = some (codes "operation was cancelled");
}

pub timed_out : ℕ → ℕ → ℕ → OperationSummary
timed_out total_units completed_units failed_units = record {
  status = timed_out_status;
  total_units = total_units;
  completed_units = completed_units;
  failed_units = failed_units;
  is_cancelled = false;
  is_timed_out = true;
  reason_code = some (codes "operation_timed_out");
  message = some (codes "operation timed out before all work completed");
}

pub partial : ℕ → ℕ → ℕ → OperationSummary
partial total_units completed_units failed_units = record {
  status = partial_status;
  total_units = total_units;
  completed_units = completed_units;
  failed_units = failed_units;
  is_cancelled = false;
  is_timed_out = false;
  reason_code = some (codes "operation_partial");
  message = some (codes "operation completed with incomplete roots");
}
