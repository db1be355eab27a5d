-- ===== src/Core.antt =====
-- include/core/status.hpp and src/core/status.cpp: status and exit codes.
use skan.Base.{ℕ, Bool, true, false}

-- `enum class StatusCode`
pub data StatusCode : Type 0 where
  ok invalid_argument memory_error io_error permission_denied : StatusCode
  parse_error not_found internal_error resource_exhausted : StatusCode

-- `enum class ExitCode`
pub data ExitCode : Type 0 where
  success usage permission runtime partial : ExitCode

-- `status_to_exit_code`
pub status_to_exit_code : StatusCode → ExitCode
status_to_exit_code ok = success
status_to_exit_code invalid_argument = usage
status_to_exit_code permission_denied = permission
status_to_exit_code memory_error = runtime
status_to_exit_code io_error = runtime
status_to_exit_code parse_error = runtime
status_to_exit_code not_found = runtime
status_to_exit_code internal_error = runtime
status_to_exit_code resource_exhausted = runtime

-- `exit_code_value`
pub exit_code_value : ExitCode → ℕ
exit_code_value success = 0
exit_code_value usage = 1
exit_code_value permission = 2
exit_code_value runtime = 3
exit_code_value partial = 4

-- `status == StatusCode::Ok`
abbrev pub is_ok : StatusCode → Bool
is_ok ok = true
is_ok _ = false
