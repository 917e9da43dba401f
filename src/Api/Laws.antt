-- ===== src/Api/Laws.antt =====
-- What the HTTP client guarantees of its headers, its CSRF token and its errors (client.ts).
use job_lens.Common.{
  ℕ, ◌≤◌, ◌≡◌, refl, ◌⊎◌, inl, inr, true, false, String, Text, Option, none, some, [], ◌∷◌, ◌++◌,
  All, length, same, same_iff, Bool-cases, Option-cases, all_iff, if◌then◌else◌, arith,
}
use job_lens.Api.{
  Failure, ApiError, ok, fail, api, Fetched, is_ok, Response, ErrorBody, unwrap, unwrap_void,
  Headers, get_header, set_header, Request, on_request, is_safe_method, token_of, csrf_header,
  to_api_error, body_of,
}
use job_lens.Api.Decimal.{value, value-decimal, decimal}
use job_lens.Api.Headers.{
  JsNumber, whole, negative, unwhole, is_visible, max_version, confirm_headers, etag,
}

-- What the server reads of a command: the version and the key.
pub record IsCommand (version : JsNumber) (key : Text) (hs : Headers) : Type 0 where
  pub number : ℕ
  pub is_whole : version ≡ whole number
  pub positive : 1 ≤ number
  pub bounded : number ≤ max_version
  pub long_enough : 16 ≤ length key
  pub short_enough : length key ≤ 128
  pub visible : All (λ c. is_visible c ≡ true) key
  pub digits : Text
  pub if_match : get_header "If-Match" hs ≡ some (b'"' ∷ (digits ++ b'"' ∷ []))
  pub names_version : value digits ≡ number
  pub idempotency : get_header "Idempotency-Key" hs ≡ some key

-- Whenever a confirming command gets its headers, the version is a whole number from 1 to
-- 2147483647 that the `If-Match` header prints, the key has 16 to 128 visible ASCII characters and
-- is sent as it is.
pub confirm_headers-IsCommand :
    (version : JsNumber) (key : Text) (hs : Headers)
    → confirm_headers version key ≡ ok hs
    → IsCommand version key hs
unfolding confirm_headers get_header
confirm_headers-IsCommand (whole n) key hs h = record {
  number = n;
  is_whole = refl;
  positive = ground arith;
  bounded = ground arith;
  long_enough = ground arith;
  short_enough = ground arith;
  visible = (all_iff is_visible key).0 (ground arith);
  digits = decimal n;
  if_match = ground arith;
  names_version = value-decimal n;
  idempotency = ground arith;
}
confirm_headers-IsCommand (negative n) key hs h = absurd (ground arith)
confirm_headers-IsCommand unwhole key hs h = absurd (cc)

-- Every whole version from 1 to 2147483647 and every key of 16 to 128 visible ASCII characters get
-- headers, and the CSRF placeholder stands first.
pub confirm_headers_complete :
    (n : ℕ) (key : Text)
    → 1 ≤ n
    → n ≤ max_version
    → 16 ≤ length key
    → length key ≤ 128
    → All (λ c. is_visible c ≡ true) key
    → confirm_headers (whole n) key
      ≡ ok ((csrf_header, []) ∷ ("If-Match", etag n) ∷ ("Idempotency-Key", key) ∷ [])
unfolding confirm_headers
confirm_headers_complete n key p b l u v = ground (arith, (all_iff is_visible key).1 v)

get_header-set_header :
    (name : String) (value : Text) (hs : Headers) (other : String)
    → get_header other (set_header name value hs)
      ≡ (if same name other then some value else get_header other hs)
unfolding get_header set_header
get_header-set_header name value [] other = refl
get_header-set_header name value ((n, v) ∷ hs) other = ground (
  arith,
  get_header-set_header name value hs other,
  same_iff n name,
  same_iff n other,
  same_iff name other,
)

-- What the middleware makes of the CSRF header: on a method other than GET, HEAD and OPTIONS the
-- token, where one is set; else what the request had.
abbrev pub sent_token : Option Text → Request → Option Text
sent_token csrf r =
    if is_safe_method r.method
    then get_header csrf_header r.headers
    else (elim (token_of csrf) [ none ↦ get_header csrf_header r.headers | some t ↦ some t ])

-- The middleware keeps the method and every header but the CSRF header; that one becomes the
-- token, where one is set and the method is none of GET, HEAD and OPTIONS, and else stays what the
-- request had.
pub on_request_lem :
    (csrf : Option Text) (r : Request) (name : String)
    → ((on_request csrf r).method ≡ r.method)
      × (get_header name (on_request csrf r).headers
          ≡ (if same csrf_header name then sent_token csrf r else get_header name r.headers))
unfolding on_request
on_request_lem none r name = (ground arith, ground (arith, same_iff csrf_header name))
on_request_lem (some []) r name = (ground arith, ground (arith, same_iff csrf_header name))
on_request_lem (some (c ∷ s)) r name = (
  ground arith,
  ground
      (arith, get_header-set_header csrf_header (c ∷ s) r.headers name, same_iff csrf_header name),
)

abbrev thrown {ℓ} : {T : Type ℓ} → Fetched T → ApiError
thrown r = to_api_error r.response (body_of r.failure)

-- `unwrap` gives a value exactly when the status is from 200 to 299 and a body was read.
-- Otherwise it throws an `ApiError` that carries the status of the response.
pub unwrap_cases {ℓ} :
    {T : Type ℓ} (r : Fetched T)
    → ((t : T) × (is_ok r.response ≡ true) × (r.payload ≡ some t) × (unwrap r ≡ ok t))
      ⊎ ((e : ApiError) × ((is_ok r.response ≡ false) ⊎ (r.payload ≡ none))
          × (unwrap r ≡ fail (api e))
          × (e.status ≡ r.response.status))
unfolding unwrap to_api_error
unwrap_cases r = elim (Bool-cases (is_ok r.response)) [
  | inl good ↦ elim (Option-cases r.payload) [
    | inl empty ↦ inr (thrown r, inr empty, rw (good, empty), refl)
    | inr (t, full) ↦ inl (t, good, full, rw (good, full))
  ]
  | inr bad ↦ inr (thrown r, inl bad, rw bad, refl)
]

-- `unwrapVoid` passes exactly the statuses from 200 to 299, and otherwise throws what `unwrap` throws
-- of the same response.
pub unwrap_void-unwrap {ℓ} :
    {T : Type ℓ} (response : Response) (failure : Option ErrorBody) (payload : Option T)
    → ((is_ok response ≡ true) × (unwrap_void response failure ≡ ok tt))
      ⊎ ((e : Failure) × (is_ok response ≡ false)
          × (unwrap_void response failure ≡ fail e)
          × (unwrap (record { payload = payload; failure = failure; response = response })
              ≡ fail e))
unfolding unwrap_void
unwrap_void-unwrap response failure payload = elim (Bool-cases (is_ok response)) [
  | inl good ↦ inl (good, rw good)
  | inr bad ↦ inr (api (to_api_error response (body_of failure)), bad, rw bad, rw bad)
]
