-- ===== src/Errors.antt =====
-- The errors of backend/app/core/errors.py, and what else a handler may raise.
pub mod Code
use Code.{ErrorCode, code_value}
use vpn_controll_app.Base.{ℕ, String, Option, none, some}
use vpn_controll_app.Domain.Json.{Value, str, num, obj, Fields, end, field}

pub record AppError : Type 0 where
  pub code : ErrorCode
  pub message : String
  pub status : ℕ
  pub details : Fields

-- `setup_step_error` is `SetupStepError` of the worker; `value_error` is Python's, raised by a
-- secret box, and `key_error` is raised at a reply that lacks a documented field or is no object.
-- `attribute_error` is the `finally` of `_run_job` where `job` is None.
pub data Error : Type 0 where
  app_error : AppError → Error
  setup_step_error : String → Error
  value_error : String → Error
  key_error : String → Error
  attribute_error : Error

abbrev pub app : ErrorCode → String → ℕ → Error
app c m s = app_error (record { code = c; message = m; status = s; details = end })

abbrev pub app_with : ErrorCode → String → ℕ → Fields → Error
app_with c m s d = app_error (record { code = c; message = m; status = s; details = d })

abbrev pub unauthorized : String → Error
unauthorized m = app ErrorCode.unauthorized m 401

abbrev pub forbidden : Error
forbidden = app ErrorCode.forbidden "Недостаточно прав" 403

abbrev pub not_found : String → Error
not_found m = app ErrorCode.not_found m 404

-- The body of an error response.
unfoldable pub error_body : ErrorCode → String → Fields → Fields
error_body c m d =
    field "error"
      (obj
        (field "code" (str (code_value c)) (field "message" (str m) (field "details" (obj d) end))))
      end

-- `handle_app_error`: the status and the body of the response.
unfoldable pub handle_app_error : AppError → ℕ × Fields
unfolding error_body
handle_app_error e = (e.status, error_body e.code e.message e.details)
