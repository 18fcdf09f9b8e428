-- ===== src/AppError.antt =====
-- Errors and what is asked of them: kafka-cdc/pkg/errors/errors.go and pkg/db/postgres/errors.go. An
-- error is the chain that Unwrap walks; messages are left out. The error of TxClosure is one of these.
use go_api_practice.Prelude.{Bool, false, Option, none, some, String, string_key, same}
use go_api_practice.Prelude.Int.{ℤ, negsuc, eqb_ℤ}
use go_api_practice.Transaction.{
  TxError, begin_failed, fn_failed, fn_and_rollback_failed, commit_failed,
}

-- `app` is an AppError over another error, `bare_app` one whose Err is nil, `pq` an error of lib/pq
-- with its code, `wrapped` what fmt.Errorf makes with %w, `other` any other error.
pub data Err : Type 0 where
  app : ℤ → Err → Err
  bare_app : ℤ → Err
  pq : String → Err
  wrapped : Err → Err
  other : Err

abbrev pub code_non_existing_key : ℤ
code_non_existing_key = negsuc 1000

abbrev pub code_json_parsing : ℤ
code_json_parsing = negsuc 1001

abbrev pub code_duplicate_key : ℤ
code_duplicate_key = negsuc 1002

abbrev pub code_unknown : ℤ
code_unknown = negsuc 9998

-- ErrDuplicateCode
abbrev pub err_duplicate_code : String
err_duplicate_code = "23505"

abbrev pub new_duplicate_key_error : Err → Err
new_duplicate_key_error err = app code_duplicate_key err

abbrev pub new_non_existing_key_error : Err → Err
new_non_existing_key_error err = app code_non_existing_key err

abbrev pub new_json_parsing_error : Err → Err
new_json_parsing_error err = app code_json_parsing err

-- errors.As with an *AppError as its target: the code of the first one in the chain.
unfoldable pub as_app_error : Err → Option ℤ
as_app_error (app code err) = some code
as_app_error (bare_app code) = some code
as_app_error (pq code) = none
as_app_error (wrapped err) = as_app_error err
as_app_error other = none

-- errors.As with a *pq.Error as its target.
unfoldable pub as_pq_error : Err → Option String
as_pq_error (app code err) = as_pq_error err
as_pq_error (bare_app code) = none
as_pq_error (pq code) = some code
as_pq_error (wrapped err) = as_pq_error err
as_pq_error other = none

abbrev pub has_code : ℤ → Option ℤ → Bool
has_code code none = false
has_code code (some c) = eqb_ℤ c code

abbrev pub is_duplicate_key_error : Err → Bool
is_duplicate_key_error err = has_code code_duplicate_key (as_app_error err)

abbrev pub is_non_existing_key_error : Err → Bool
is_non_existing_key_error err = has_code code_non_existing_key (as_app_error err)

abbrev pub is_json_parsing_error : Err → Bool
is_json_parsing_error err = has_code code_json_parsing (as_app_error err)

abbrev pub or_unknown : Option ℤ → ℤ
or_unknown none = code_unknown
or_unknown (some code) = code

abbrev pub get_error_code : Err → ℤ
get_error_code err = or_unknown (as_app_error err)

abbrev pub is_code : String → Option String → Bool
is_code code none = false
is_code code (some c) = same c code

-- IsDuplicateKeyErr
abbrev pub is_duplicate_key_err : Err → Bool
is_duplicate_key_err err = is_code err_duplicate_code (as_pq_error err)

-- The error that TxClosure returns.
unfoldable pub tx_error : TxError Err → Err
tx_error begin_failed = wrapped other
tx_error (fn_failed err) = err
tx_error (fn_and_rollback_failed err) = wrapped err
tx_error commit_failed = wrapped other
