-- ===== src/Errors/Codes.antt =====
-- pkg/errorsx/code.go: the predefined errors; `success` is `OK`.
use public_pkg.Common.{[]}
use public_pkg.Errors.{ErrorX}

abbrev success : ErrorX
success = record { code = 200; reason = ""; message = ""; metadata = [] }

abbrev err_not_found : ErrorX
err_not_found = record {
  code = 404;
  reason = "NotFound";
  message = "Resource not found.";
  metadata = [];
}

abbrev err_bind : ErrorX
err_bind = record {
  code = 400;
  reason = "BindError";
  message = "Error occurred while binding the request body to the struct.";
  metadata = [];
}

abbrev err_invalid_argument : ErrorX
err_invalid_argument = record {
  code = 400;
  reason = "InvalidArgument";
  message = "Argument verification failed.";
  metadata = [];
}

abbrev err_unauthenticated : ErrorX
err_unauthenticated = record {
  code = 401;
  reason = "Unauthenticated";
  message = "Unauthenticated.";
  metadata = [];
}

abbrev err_permission_denied : ErrorX
err_permission_denied = record {
  code = 403;
  reason = "PermissionDenied";
  message = "Permission denied. Access to the requested resource is forbidden.";
  metadata = [];
}

abbrev err_operation_failed : ErrorX
err_operation_failed = record {
  code = 409;
  reason = "OperationFailed";
  message = "The requested operation has failed. Please try again later.";
  metadata = [];
}
