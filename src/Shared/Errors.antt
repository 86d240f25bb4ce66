-- ===== src/Shared/Errors.antt =====
-- Exceptions, and what every service makes of one that it catches: src/shared/utils/utils.ts and
-- src/shared/ecom-api/errors/ecom-api.error.ts.
use layer_backend.Base.{ℕ, zero, suc, String, Option, none, some}

-- What the code throws and catches. `http` is an `HttpException` whose response is an object with
-- the message and an optional numeric code, `http_text` one whose response is a text;
-- `ecom_unavailable` is `EcomApiUnavailableError` with the number of attempts; `prisma` is a
-- `PrismaClientKnownRequestError` with its code, and `failure` any other error.
pub data Exception : Type 0 where
  http : (status : ℕ) → (code : Option ℕ) → (message : String) → Exception
  http_text : (status : ℕ) → (message : String) → Exception
  ecom_unavailable : (message : String) → (attempts : ℕ) → Exception
  prisma : (code : String) → (message : String) → Exception
  failure : (message : String) → Exception

-- `error.message`.
abbrev pub message_of : Exception → String
message_of (Exception.http status code message) = message
message_of (Exception.http_text status message) = message
message_of (Exception.ecom_unavailable message attempts) = message
message_of (Exception.prisma code message) = message
message_of (Exception.failure message) = message

-- `HttpStatus.BAD_REQUEST`.
abbrev pub bad_request : ℕ
bad_request = 400

-- `if (response.code)`: a code of zero is dropped like a missing one.
abbrev pub truthy_code : Option ℕ → Option ℕ
truthy_code none = none
truthy_code (some zero) = none
truthy_code (some (suc n)) = some (suc n)

-- `handleExceptionCode`: the status and the code of an `HttpException` survive, any other error
-- becomes a 400, and the message is always the service's own.
unfoldable pub handle_exception_code : Exception → String → Exception
handle_exception_code (Exception.http status code message) error_message =
    Exception.http status (truthy_code code) error_message
handle_exception_code (Exception.http_text status message) error_message =
    Exception.http status none error_message
handle_exception_code _ error_message = Exception.http bad_request none error_message
