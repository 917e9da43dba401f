-- ===== src/Api/Headers.antt =====
-- apps/web/src/shared/api/client.ts: the headers of the commands that write.
use job_lens.Common.{
  ℕ, suc, Bool, true, false, ◌&&◌, ◌||◌, not, Text, [], ◌∷◌, ◌++◌, leb, ltb, if◌then◌else◌, length,
  all,
}
use job_lens.Api.{Headers, csrf_header, Settled, ok, fail, error, ◌>>=◌}
use job_lens.Api.Decimal.{decimal}

-- A JavaScript number: whole, or a negative whole number -(n + 1), or anything else (a fraction,
-- NaN, an infinity).
pub data JsNumber : Type 0 where
  whole negative : ℕ → JsNumber
  unwhole : JsNumber

abbrev pub max_safe_integer : ℕ
max_safe_integer = 9007199254740991

abbrev pub is_safe_integer : JsNumber → Bool
is_safe_integer (whole n) = leb n max_safe_integer
is_safe_integer (negative n) = leb (suc n) max_safe_integer
is_safe_integer unwhole = false

-- `version < k` and `version > k` at a natural number; a comparison with NaN is not reached.
abbrev below : JsNumber → ℕ → Bool
below (whole n) k = ltb n k
below (negative _) _ = true
below unwhole _ = false

abbrev above : JsNumber → ℕ → Bool
above (whole n) k = ltb k n
above _ _ = false

abbrev pub max_version : ℕ
max_version = 2147483647

bad_version : JsNumber → Bool
bad_version v = not (is_safe_integer v) || below v 1 || above v max_version

-- The class `[!-~]`.
abbrev pub is_visible : ℕ → Bool
is_visible c = leb 33 c && leb c 126

-- `/^[!-~]{16,128}$/.test(key)`.
pub fits_key : Text → Bool
fits_key key = leb 16 (length key) && leb (length key) 128 && all is_visible key

-- `"${version}"`, quotes included. A version that passed the test is whole.
abbrev pub etag : ℕ → Text
etag version = b'"' ∷ (decimal version ++ b'"' ∷ [])

print_version : JsNumber → Text
print_version (whole n) = etag n
print_version _ = []

unfoldable pub command_headers : JsNumber → Text → Settled Headers
unfolding bad_version fits_key print_version
command_headers version key =
    if bad_version version
    then fail (error "Invalid version")
    else if not (fits_key key)
    then fail (error "Invalid idempotency key")
    else ok (("If-Match", print_version version) ∷ ("Idempotency-Key", key) ∷ [])

-- The placeholder that the middleware overwrites.
abbrev csrf : Headers
csrf = (csrf_header, []) ∷ []

unfoldable pub create_headers : Text → Headers
create_headers key = csrf ++ ("Idempotency-Key", key) ∷ []

unfoldable pub update_headers : ℕ → Headers
update_headers version = csrf ++ ("If-Match", etag version) ∷ []

unfoldable pub confirm_headers : JsNumber → Text → Settled Headers
unfolding command_headers
confirm_headers version key = command_headers version key >>= λ hs. ok (csrf ++ hs)
