-- ===== src/ErrorHandler.antt =====
-- The answer to a request that failed: server/src/middleware/error.middleware.ts. The log entry is
-- left out.
use export_vault.Prelude.{
  ℕ, ◌≤◌, ◌≡◌, ◌∙◌, refl, sym, Bool, true, ◌&&◌, Option, none, ◌++◌, arith, leb, if◌then◌else◌,
}
use export_vault.Text.{Text, codes}

-- What `next(error)` is called with: an AppError with its details, if they are truthy; another
-- Error; or any other value, by the text that `toError` makes of it.
pub data Thrown : Type 0 where
  app : (status_code : ℕ) (code message : Text) (details : Option Text) → Thrown
  other : (message : Text) → Thrown
  value : (shown : Text) → Thrown

-- toError(error).message
abbrev pub message_of : Thrown → Text
message_of (app status code message details) = message
message_of (other message) = message
message_of (value shown) = shown

-- appError?.statusCode ?? 500
abbrev pub status_of : Thrown → ℕ
status_of (app status code message details) = status
status_of (other message) = 500
status_of (value shown) = 500

-- appError?.code ?? 'INTERNAL_ERROR'
abbrev pub code_of : Thrown → Text
code_of (app status code message details) = code
code_of (other message) = codes "INTERNAL_ERROR"
code_of (value shown) = codes "INTERNAL_ERROR"

abbrev pub details_of : Thrown → Option Text
details_of (app status code message details) = details
details_of (other message) = none
details_of (value shown) = none

pub record ErrorAnswer : Type 0 where
  pub status : ℕ
  pub code : Text
  pub message : Text
  pub details : Option Text
  pub request_id : Text
  pub timestamp : ℕ

abbrev pub hidden : Text
hidden = codes "An internal error occurred. Reference the requestId when reporting this."

unfoldable pub error_handler :
    (is_production : Bool) (request_id : Text) (now : ℕ) → Thrown → ErrorAnswer
error_handler is_production request_id now t = record {
  status = status_of t;
  code = code_of t;
  message = if leb 500 (status_of t) && is_production then hidden else message_of t;
  details = details_of t;
  request_id = request_id;
  timestamp = now;
}

-- new NotFoundError(`Route ${req.method} ${req.path} not found`)
abbrev pub not_found_handler : (method path : Text) → Thrown
not_found_handler method path =
    app 404 (codes "NOT_FOUND")
      (codes "Route " ++ (method ++ (codes " " ++ (path ++ codes " not found")))) none

told-hidden :
    (t : Thrown)
    → 500 ≤ status_of t
    → (if leb 500 (status_of t) && true then hidden else message_of t) ≡ hidden
told-hidden t high = let is_high : leb 500 (status_of t) ≡ true = ground arith in rw is_high refl

-- In production two failures with a status of 500 or more that have the same status, code and
-- details are answered alike, whatever their messages say.
pub error_handler-hides :
    (request_id : Text) (now : ℕ) (t u : Thrown)
    → 500 ≤ status_of t
    → status_of t ≡ status_of u
    → code_of t ≡ code_of u
    → details_of t ≡ details_of u
    → error_handler true request_id now t ≡ error_handler true request_id now u
unfolding error_handler
error_handler-hides request_id now t u high same_status same_code same_details = λ i. record {
  status = same_status i;
  code = same_code i;
  message = (told-hidden t high ∙ sym (told-hidden u (omega (arith, high, same_status)))) i;
  details = same_details i;
  request_id = request_id;
  timestamp = now;
}
