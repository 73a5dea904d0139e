-- ===== src/Errors.antt =====
-- backend/internal/common/errors.go and response.go: business errors, database errors and the
-- response that each becomes.
use second_hand_market_backe.Base.{ℕ, String, Bool, true, false, List}

-- A `*BizError`. The package's variables are constructors, since the code compares them by
-- identity; any other is made by `NewBizError`.
pub data BizError : Type 0 where
  invalid_argument unauthorized forbidden not_found invalid_transition : BizError
  review_not_approved account_disabled invalid_upload rate_limit conflict : BizError
  duplicate_submit internal : BizError
  new_biz_error : ℕ → String → ℕ → BizError

-- What the driver reports: which error value it is, and its text.
pub data DbKind : Type 0 where
  record_not_found duplicated_key opaque : DbKind
  mysql sqlite : ℕ → DbKind

pub record DbError : Type 0 where
  pub kind : DbKind
  pub message : List ℕ

-- The values of Go's `error` that the handlers pass on.
pub data Error : Type 0 where
  biz : BizError → Error
  db : DbError → Error
  claim_conflict : Error

pub data Result {ℓ} (A : Type ℓ) : Type ℓ where
  ok : A → Result A
  err : Error → Result A

unfoldable pub code_of : BizError → ℕ
code_of invalid_argument = 10001
code_of unauthorized = 10002
code_of forbidden = 10003
code_of not_found = 10004
code_of invalid_transition = 10005
code_of review_not_approved = 10006
code_of account_disabled = 10007
code_of invalid_upload = 10008
code_of rate_limit = 10009
code_of conflict = 10010
code_of duplicate_submit = 10011
code_of internal = 20001
code_of (new_biz_error c m h) = c

abbrev pub code_ok : ℕ
code_ok = 0

abbrev pub code_conflict : ℕ
code_conflict = 10010

unfoldable pub message_of : BizError → String
message_of invalid_argument = "invalid argument"
message_of unauthorized = "unauthorized"
message_of forbidden = "forbidden"
message_of not_found = "resource not found"
message_of invalid_transition = "invalid status transition"
message_of review_not_approved = "review not approved"
message_of account_disabled = "account disabled"
message_of invalid_upload = "invalid upload file"
message_of rate_limit = "rate limit exceeded"
message_of conflict = "conflict"
message_of duplicate_submit = "duplicate submit"
message_of internal = "internal error"
message_of (new_biz_error c m h) = m

unfoldable pub http_status_of : BizError → ℕ
http_status_of invalid_argument = 400
http_status_of unauthorized = 401
http_status_of forbidden = 403
http_status_of not_found = 404
http_status_of invalid_transition = 400
http_status_of review_not_approved = 403
http_status_of account_disabled = 403
http_status_of invalid_upload = 400
http_status_of rate_limit = 429
http_status_of conflict = 409
http_status_of duplicate_submit = 409
http_status_of internal = 500
http_status_of (new_biz_error c m h) = h

pub record Failure : Type 0 where
  pub http_status : ℕ
  pub code : ℕ
  pub message : String

-- `common.Fail`: an error that is no business error is reported without its text.
unfoldable pub fail : Error → Failure
unfolding code_of message_of http_status_of
fail (biz e) = record { http_status = http_status_of e; code = code_of e; message = message_of e }
fail _ = record { http_status = 500; code = 20001; message = "internal error" }

-- `errors.Is(err, gorm.ErrRecordNotFound)`
unfoldable pub is_record_not_found : Error → Bool
is_record_not_found (db e) = elim e.kind [ record_not_found ↦ true | _ ↦ false ]
is_record_not_found _ = false

-- `mapDatabaseError` of backend/internal/app/server.go, on an error.
unfoldable pub map_database_error : Error → Error
unfolding is_record_not_found
map_database_error e = elim (is_record_not_found e) [ true ↦ biz not_found | false ↦ e ]
