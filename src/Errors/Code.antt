-- ===== src/Errors/Code.antt =====
-- The enumeration ErrorCode of backend/app/core/errors.py, with its values.
use vpn_controll_app.Base.{ℕ, String, Eq, ◌==◌, nat_Eq, ◌≡◌, ◌↔◌, true, arith}

pub data ErrorCode : Type 0 where
  unauthorized forbidden csrf_failed not_found validation_error rate_limited : ErrorCode
  device_limit_reached issue_result_expired server_unavailable agent_unavailable : ErrorCode
  agent_rejected setup_job_failed secret_required internal_error : ErrorCode

abbrev pub code_value : ErrorCode → String
code_value ErrorCode.unauthorized = "unauthorized"
code_value ErrorCode.forbidden = "forbidden"
code_value ErrorCode.csrf_failed = "csrf_failed"
code_value ErrorCode.not_found = "not_found"
code_value ErrorCode.validation_error = "validation_error"
code_value ErrorCode.rate_limited = "rate_limited"
code_value ErrorCode.device_limit_reached = "device_limit_reached"
code_value ErrorCode.issue_result_expired = "issue_result_expired"
code_value ErrorCode.server_unavailable = "server_unavailable"
code_value ErrorCode.agent_unavailable = "agent_unavailable"
code_value ErrorCode.agent_rejected = "agent_rejected"
code_value ErrorCode.setup_job_failed = "setup_job_failed"
code_value ErrorCode.secret_required = "secret_required"
code_value ErrorCode.internal_error = "internal_error"

-- The position of a member, by which members are compared.
abbrev pub code_index : ErrorCode → ℕ
code_index ErrorCode.unauthorized = 0
code_index ErrorCode.forbidden = 1
code_index ErrorCode.csrf_failed = 2
code_index ErrorCode.not_found = 3
code_index ErrorCode.validation_error = 4
code_index ErrorCode.rate_limited = 5
code_index ErrorCode.device_limit_reached = 6
code_index ErrorCode.issue_result_expired = 7
code_index ErrorCode.server_unavailable = 8
code_index ErrorCode.agent_unavailable = 9
code_index ErrorCode.agent_rejected = 10
code_index ErrorCode.setup_job_failed = 11
code_index ErrorCode.secret_required = 12
code_index ErrorCode.internal_error = 13

pub code_index-eq_iff : (a b : ErrorCode) → ((code_index a == code_index b) ≡ true) ↔ (a ≡ b)
code_index-eq_iff a b = ground arith

instance abbrev pub ErrorCode_Eq : Eq ErrorCode
ErrorCode_Eq = record {
  is_equal = λ a b. code_index a == code_index b;
  is_equal_iff = code_index-eq_iff;
}
