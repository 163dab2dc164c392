-- ===== src/Error.antt =====
-- include/rasterm/Error.hpp: the error codes that every component reports, and `Status`.
use mathlib.Core.Bool.{Bool, true, false}

-- `enum class ErrorCode`; the constructor `no_error` is `ErrorCode::None`.
pub data ErrorCode : Type 0 where
  no_error invalid_argument invalid_output_handle output_is_not_console : ErrorCode
  console_mode_query_failed console_mode_enable_failed terminal_dimensions_unavailable : ErrorCode
  unsupported_terminal stdout_mode_failed control_handler_registration_failed : ErrorCode
  diagnostic_open_failed output_write_failed output_flush_failed : ErrorCode
  output_buffer_limit_exceeded presenter_thread_start_failed initialization_exception : ErrorCode
  rendering_exception buffer_too_small api_version_mismatch out_of_memory : ErrorCode
  presenter_stopped timed_out : ErrorCode

-- `code == ErrorCode::None`.
abbrev pub is_none : ErrorCode → Bool
is_none no_error = true
is_none _ = false
