-- ===== src/Status.antt =====
-- absl::Status by its code; the messages, which the code logs and never reads, are left out.
pub data StatusCode : Type 0 where
  invalid_argument failed_precondition not_found internal : StatusCode

pub data Status : Type 0 where
  ok_status : Status
  error : StatusCode → Status

-- absl::StatusOr
pub data StatusOr (A : Type 0) : Type 0 where
  value : A → StatusOr A
  status : StatusCode → StatusOr A
