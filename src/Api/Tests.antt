-- ===== src/Api/Tests.antt =====
-- Requests and answers of the HTTP client.
use job_lens.Common.{ℕ, ◌≡◌, refl, Text, Option, none, [], ◌∷◌, codes}
use job_lens.Api.{ok, Fetched, Response, Headers, Request, csrf_header}
use job_lens.Api.Headers.{whole, confirm_headers, etag}

abbrev key : Text
key = codes "0123456789abcdef"

abbrev command : Headers
command = (csrf_header, []) ∷ ("If-Match", etag 12) ∷ ("Idempotency-Key", key) ∷ []

confirmed : confirm_headers (whole 12) key ≡ ok command
unfolding confirm_headers
confirmed = refl

abbrev put : Request
put = record { method = "PUT"; headers = command }

abbrev stale : Response
stale = record { status = 412 }

abbrev no_payload : Option ℕ
no_payload = none

abbrev answer : Fetched ℕ
answer = record { payload = none; failure = none; response = stale }
