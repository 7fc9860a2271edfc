-- ===== src/Client/Api.antt =====
-- client/src/api/client.ts: requests to the API, and the token in the browser's storage.
use export_vault.Prelude.{
  ℕ, Bool, true, false, ◌&&◌, Option, none, some, [], ◌∷◌, ◌++◌, leb, ltb, ◌==◌, if◌then◌else◌,
}
use export_vault.Text.{Text, codes}
use export_vault.Auth.{bearer}

-- The browser: whether its storage throws, and the token that is stored.
pub record Browser : Type 0 where
  pub blocked : Bool
  pub stored : Option Text

-- The fields of `payload.error`.
pub record ErrorBody : Type 0 where
  pub message : Option Text
  pub code : Option Text
  pub request_id : Option Text
  pub details : Option Text

-- JSON.parse, and what the client reads from a payload. Reading `user` or `token` of a payload that is
-- null throws (`none`); `user` may be missing from one that is not (`some none`).
pub record Payloads : Type 1 where
  pub Payload : Type 0
  pub Account : Type 0
  pub parse : Text → Option Payload
  pub error_of : Payload → Option ErrorBody
  pub user_of : Payload → Option (Option Account)
  pub token_of : Payload → Option Text

-- What is handed to `fetch`.
pub record Sent : Type 0 where
  pub path : Text
  pub is_post : Bool
  pub is_json : Bool
  pub authorization : Option Text
  pub body : Option Text

-- What becomes of a request: `fetch` throws, or there is an answer with a status and a text.
pub data Reply : Type 0 where
  unreachable : Reply
  answered : ℕ → Text → Reply

pub data ClientMessage : Type 0 where
  could_not_reach : ClientMessage
  malformed : (status : ℕ) → ClientMessage
  request_failed : (status : ℕ) → ClientMessage
  storage_blocked : ClientMessage
  no_such_field : ClientMessage
  told : Text → ClientMessage

pub record ApiError : Type 0 where
  pub message : ClientMessage
  pub status : ℕ
  pub code : Text
  pub request_id : Option Text
  pub details : Option Text

pub data Outcome {ℓ} (A : Type ℓ) : Type ℓ where
  done : A → Outcome A
  failed : ApiError → Outcome A

-- `options`, with the body as the text that JSON.stringify gives.
pub record Options : Type 0 where
  pub is_post : Bool
  pub body : Option Text
  pub auth : Bool

abbrev pub get_request : Options
get_request = record { is_post = false; body = none; auth = true }

unfoldable pub get_token : Browser → Option Text
get_token b = if b.blocked then none else b.stored

-- It throws where the storage is blocked.
unfoldable pub set_token : Text → Browser → Outcome Browser
set_token t b =
    if b.blocked
    then failed (record {
      message = storage_blocked;
      status = 0;
      code = [];
      request_id = none;
      details = none;
    })
    else done (record b { stored = some t })

unfoldable pub clear_token : Browser → Browser
clear_token b = if b.blocked then b else record b { stored = none }

-- `if (token)`: the empty string is none.
unfoldable pub authorization_of : Option Text → Option Text
authorization_of none = none
authorization_of (some []) = none
authorization_of (some (c ∷ t)) = some (bearer ++ c ∷ t)

is_some : Option Text → Bool
is_some none = false
is_some (some t) = true

unfoldable pub request_of : Text → Options → Browser → Sent
unfolding get_token authorization_of is_some
request_of path o b = record {
  path = path;
  is_post = o.is_post;
  is_json = is_some o.body;
  authorization = if o.auth then authorization_of (get_token b) else none;
  body = o.body;
}

-- response.ok
abbrev pub is_ok : ℕ → Bool
is_ok status = leb 200 status && ltb status 300

unfoldable pub or_else : {A : Type 0} → Option A → A → A
or_else none a = a
or_else (some x) a = x

abbrev pub no_error_body : ErrorBody
no_error_body = record { message = none; code = none; request_id = none; details = none }

unfoldable pub told_or : Option Text → ClientMessage → ClientMessage
told_or none m = m
told_or (some t) m = told t

unfoldable pub rejection : ℕ → ErrorBody → ApiError
unfolding told_or or_else
rejection status body = record {
  message = told_or body.message (request_failed status);
  status = status;
  code = or_else body.code (codes "HTTP_ERROR");
  request_id = body.request_id;
  details = body.details;
}

module _ (p : Payloads) where
  open p use {Payload, parse, error_of}

  -- `payload?.error`
  unfoldable pub error_body : Option Payload → ErrorBody
  unfolding or_else
  error_body none = no_error_body
  error_body (some x) = or_else (error_of x) no_error_body

  -- From the parsed payload on. A 401 ends the session in the storage.
  unfoldable pub judged : ℕ → Option Payload → Browser → Outcome (Option Payload) × Browser
  unfolding error_body rejection clear_token
  judged status payload b = if is_ok status then (done payload, b) else (
    failed (rejection status (error_body payload)),
    if status == 401 then clear_token b else b,
  )

  unfoldable pub parsed : ℕ → Option Payload → Browser → Outcome (Option Payload) × Browser
  unfolding judged
  parsed status none b = (
    failed (record {
      message = malformed status;
      status = status;
      code = codes "MALFORMED_RESPONSE";
      request_id = none;
      details = none;
    }),
    b,
  )
  parsed status (some x) b = judged status (some x) b

  -- An empty text is no payload.
  unfoldable pub received : Reply → Browser → Outcome (Option Payload) × Browser
  unfolding parsed judged
  received unreachable b = (
    failed (record {
      message = could_not_reach;
      status = 0;
      code = codes "NETWORK_ERROR";
      request_id = none;
      details = none;
    }),
    b,
  )
  received (answered status []) b = judged status none b
  received (answered status (c ∷ text)) b = parsed status (parse (c ∷ text)) b

  unfoldable pub api_request :
      (network : Sent → Reply) → Text → Options → Browser → Outcome (Option Payload) × Browser
  unfolding received request_of
  api_request network path o b = received (network (request_of path o b)) b

-- client/src/App.tsx: whether a query that failed is tried again
unfoldable pub retries : (failure_count status : ℕ) → Bool
retries failure_count status =
    if leb 400 status && ltb status 500 then false else ltb failure_count 2
