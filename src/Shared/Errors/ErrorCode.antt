-- ===== src/Shared/Errors/ErrorCode.antt =====
-- packages/shared/src/errors/index.js: the constants of `ErrorCode`.
use hippo_build_x.Prelude.{String}

abbrev pub unauthorized : String
unauthorized = "UNAUTHORIZED"

abbrev pub forbidden : String
forbidden = "FORBIDDEN"

abbrev pub token_expired : String
token_expired = "TOKEN_EXPIRED"

abbrev pub token_invalid : String
token_invalid = "TOKEN_INVALID"

abbrev pub session_revoked : String
session_revoked = "SESSION_REVOKED"

abbrev pub validation_error : String
validation_error = "VALIDATION_ERROR"

abbrev pub invalid_input : String
invalid_input = "INVALID_INPUT"

abbrev pub missing_required_field : String
missing_required_field = "MISSING_REQUIRED_FIELD"

abbrev pub not_found : String
not_found = "NOT_FOUND"

abbrev pub already_exists : String
already_exists = "ALREADY_EXISTS"

abbrev pub conflict : String
conflict = "CONFLICT"

abbrev pub tenant_not_found : String
tenant_not_found = "TENANT_NOT_FOUND"

abbrev pub tenant_suspended : String
tenant_suspended = "TENANT_SUSPENDED"

abbrev pub cross_tenant_access : String
cross_tenant_access = "CROSS_TENANT_ACCESS"

abbrev pub tenant_context_required : String
tenant_context_required = "TENANT_CONTEXT_REQUIRED"

abbrev pub tenant_provisioning_failed : String
tenant_provisioning_failed = "TENANT_PROVISIONING_FAILED"

abbrev pub invalid_state_transition : String
invalid_state_transition = "INVALID_STATE_TRANSITION"

abbrev pub idempotency_key_reused : String
idempotency_key_reused = "IDEMPOTENCY_KEY_REUSED"

abbrev pub insufficient_permission : String
insufficient_permission = "INSUFFICIENT_PERMISSION"

abbrev pub negative_stock_rejected : String
negative_stock_rejected = "NEGATIVE_STOCK_REJECTED"

abbrev pub internal_error : String
internal_error = "INTERNAL_ERROR"

abbrev pub service_unavailable : String
service_unavailable = "SERVICE_UNAVAILABLE"

abbrev pub rate_limit_exceeded : String
rate_limit_exceeded = "RATE_LIMIT_EXCEEDED"
