-- ===== src/Common/ExceptionFilter.antt =====
-- src/common/filters/global-exception.filter.ts: the answer that an exception becomes.
use nestjs_hexagonal_templat.Prelude.{
  ℕ, ◌/◌, ◌%◌, ◌≤◌, ◌<◌, String, ◌≡◌, refl, sym, ap, ◌∙◌, Bool, true, false, Option, none, some,
  arith, leb, if◌then◌else◌, eqb,
}
use Prim.Native.String
use nestjs_hexagonal_templat.Common.Json.{Json, str, arr}
use nestjs_hexagonal_templat.Common.Errors.{
  code_text, validation_error, internal_error, internal_server_error, HttpResponse, text, object,
  other_value, HttpException, Exception, domain, http, unknown,
}

-- The `error` object of the answer.
pub record ErrorBody : Type 0 where
  pub code : String
  pub message : String
  pub details : Option Json

pub record ErrorResponse : Type 0 where
  pub status : ℕ
  pub error : ErrorBody

-- The digits of a status as a template text prints it; a status has three.
abbrev digit : ℕ → String
digit n =
    if eqb n 0
    then "0"
    else if eqb n 1
    then "1"
    else if eqb n 2
    then "2"
    else if eqb n 3
    then "3"
    else if eqb n 4
    then "4"
    else if eqb n 5
    then "5"
    else if eqb n 6
    then "6"
    else if eqb n 7
    then "7"
    else if eqb n 8
    then "8"
    else "9"

-- `HTTP_${status}`
unfoldable pub status_code : ℕ → String
status_code n =
    String.◌++◌ "HTTP_"
      (String.◌++◌ (digit (n / 100)) (String.◌++◌ (digit ((n / 10) % 10)) (digit (n % 10))))

abbrev pub generic_message : String
generic_message = "Erro interno do servidor"

abbrev or_json : Option Json → Option Json → Option Json
or_json (some v) _ = some v
or_json none w = w

-- The answer to an object that a `HttpException` holds: its `code`, `message` and `details`.
-- An array as message is a validation error of Nest's.
abbrev object_code : Option Json → Option Json → String → String
object_code (some (str code)) message default = code
object_code _ (some (arr items)) default = code_text validation_error
object_code _ _ default = default

abbrev object_message : Option Json → String → String
object_message (some (arr items)) default = "Erro de validação"
object_message (some (str message)) default = message
object_message _ default = default

abbrev object_details : Option Json → Option Json → Option Json
object_details (some (arr items)) details = or_json details (some (arr items))
object_details _ details = details

abbrev http_body : HttpException → HttpResponse → ErrorBody
http_body e (text s) = record { code = status_code e.status; message = s; details = none }
http_body e (object code message details) = record {
  code = object_code code message (status_code e.status);
  message = object_message message e.message;
  details = object_details message details;
}
http_body e other_value = record {
  code = status_code e.status;
  message = e.message;
  details = none;
}

-- What the exception says of itself.
unfoldable pub describe : Exception → ErrorResponse
unfolding status_code code_text
describe (domain e) = record {
  status = e.http_status;
  error = record { code = e.code; message = e.message; details = e.details };
}
describe (http e) = record { status = e.status; error = http_body e e.response }
describe (unknown s) = record {
  status = internal_server_error;
  error = record { code = code_text internal_error; message = generic_message; details = none };
}

-- A server error keeps its details and its message to itself.
unfoldable pub mask : ErrorResponse → ErrorResponse
mask r =
    if leb 500 r.status
    then record {
      status = r.status;
      error = record { code = r.error.code; message = generic_message; details = none };
    }
    else r

-- `catch`: nothing is written once the headers are sent. The log is not part of the model.
unfoldable pub catch_exception : Bool → Exception → Option ErrorResponse
unfolding describe mask
catch_exception true e = none
catch_exception false e = some (mask (describe e))

-- What a server error tells the caller is its status and its code.
catch_server_error :
    (e : Exception)
    → 500 ≤ (describe e).status
    → catch_exception false e
      ≡ some (record {
        status = (describe e).status;
        error = record {
          code = (describe e).error.code;
          message = generic_message;
          details = none;
        };
      })
unfolding catch_exception
catch_server_error e h = ground arith

-- Any other exception is answered as it says.
catch_client_error :
    (e : Exception) → (describe e).status < 500 → catch_exception false e ≡ some (describe e)
unfolding catch_exception
catch_client_error e h = ground arith

-- Two exceptions of one server status and code are answered alike: neither the message nor the
-- details of a server error reach the caller, whether headers were sent or not.
pub catch_exception-server_error :
    (sent : Bool) (e e' : Exception)
    → 500 ≤ (describe e).status
    → (describe e').status ≡ (describe e).status
    → (describe e').error.code ≡ (describe e).error.code
    → catch_exception sent e ≡ catch_exception sent e'
unfolding catch_exception
catch_exception-server_error true e e' h s c = refl
catch_exception-server_error false e e' h s c =
    catch_server_error e h
    ∙ sym (catch_server_error e' (rw s h) ∙ ap (λ r. some r) (rw s (rw c refl)))
