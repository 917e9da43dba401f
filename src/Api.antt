-- ===== src/Api.antt =====
-- apps/web/src/shared/api/client.ts: the errors of the HTTP client, the reading of a response, and
-- the CSRF token that the client adds to a request.
pub mod Decimal
pub mod Headers
pub mod Laws
pub mod Tests
use job_lens.Common.{
  ℕ, String, Text, Bool, ◌&&◌, not, Option, none, some, List, [], ◌∷◌, codes, leb, if◌then◌else◌,
  is_empty, includes, same,
}

pub record ApiError : Type 0 where
  pub status : ℕ
  pub code : Text
  pub message : Text
  pub trace_id : Option Text

-- What a call can throw: an `ApiError`, or another `Error` (the network, a failed check).
pub data Failure : Type 0 where
  api : ApiError → Failure
  error : String → Failure

-- What a promise settles to.
pub data Settled {ℓ} (A : Type ℓ) : Type ℓ where
  ok : A → Settled A
  fail : Failure → Settled A

infixl 5 ◌>>=◌
abbrev pub ◌>>=◌ {ℓ κ} : {A : Type ℓ} {B : Type κ} → Settled A → (A → Settled B) → Settled B
ok a >>= k = k a
fail e >>= k = fail e

-- `response.status` and `response.ok`.
pub record Response : Type 0 where
  pub status : ℕ

abbrev pub is_ok : Response → Bool
is_ok r = leb 200 r.status && leb r.status 299

-- A property of an unknown error body: a string, or anything else.
pub data Field : Type 0 where
  string : Text → Field
  other : Field

-- The properties that are read of an unknown error body.
pub record ErrorBody : Type 0 where
  pub code : Field
  pub title : Field
  pub trace_id : Field

-- What `openapi-fetch` hands back for a request.
pub record Fetched {ℓ} (T : Type ℓ) : Type ℓ where
  pub payload : Option T
  pub failure : Option ErrorBody
  pub response : Response

abbrev string_or : Field → Text → Text
string_or (string t) d = t
string_or other d = d

abbrev string_field : Field → Option Text
string_field (string t) = some t
string_field other = none

-- The properties read through `error?.`: a missing body has none of them.
abbrev blank_body : ErrorBody
blank_body = record { code = other; title = other; trace_id = other }

abbrev body_of : Option ErrorBody → ErrorBody
body_of none = blank_body
body_of (some b) = b

abbrev pub request_failed : Text
request_failed = codes "REQUEST_FAILED"

abbrev pub retry_message : Text
retry_message = codes "请求未完成，请重试"

pub to_api_error : Response → ErrorBody → ApiError
to_api_error r b = record {
  status = r.status;
  code = string_or b.code request_failed;
  message = string_or b.title retry_message;
  trace_id = string_field b.trace_id;
}

unwrap_payload {ℓ} : {T : Type ℓ} → Bool → Option T → ApiError → Settled T
unwrap_payload Bool.true (some t) e = ok t
unwrap_payload _ _ e = fail (api e)

unfoldable pub unwrap {ℓ} : {T : Type ℓ} → Fetched T → Settled T
unfolding unwrap_payload to_api_error
unwrap r = unwrap_payload (is_ok r.response) r.payload (to_api_error r.response (body_of r.failure))

-- `unwrap<never>` is called with no data.
unfoldable pub unwrap_void : Response → Option ErrorBody → Settled (Unit {0})
unfolding unwrap
unwrap_void response failure =
    if is_ok response
    then ok tt
    else unwrap (record { payload = none; failure = failure; response = response })

-- Header fields by name. Every name is spelled in one way throughout the program.
abbrev pub Headers : Type 0
Headers = List (String × Text)

-- `headers.set`.
pub set_header : String → Text → Headers → Headers
set_header name value [] = (name, value) ∷ []
set_header name value ((n, v) ∷ hs) =
    if same n name then (name, value) ∷ hs else (n, v) ∷ set_header name value hs

pub get_header : String → Headers → Option Text
get_header name [] = none
get_header name ((n, v) ∷ hs) = if same n name then some v else get_header name hs

pub record Request : Type 0 where
  pub method : String
  pub headers : Headers

abbrev pub csrf_header : String
csrf_header = "X-CSRF-Token"

-- `undefined` and the empty string are no token.
abbrev pub token_of : Option Text → Option Text
token_of (some (c ∷ s)) = some (c ∷ s)
token_of _ = none

add_token : Option Text → Request → Request
unfolding set_header
add_token none r = r
add_token (some t) r = record r { headers = set_header csrf_header t r.headers }

abbrev pub is_safe_method : String → Bool
is_safe_method = includes ("GET" ∷ "HEAD" ∷ "OPTIONS" ∷ [])

-- The `onRequest` middleware; `csrf` is the variable that `setCsrfToken` assigns.
unfoldable pub on_request : Option Text → Request → Request
unfolding add_token
on_request csrf r = if not (is_safe_method r.method) then add_token (token_of csrf) r else r
