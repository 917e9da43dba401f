-- ===== src/Account.antt =====
-- apps/web/src/features/auth/AccountPages.tsx: registering, asking for a reset link, and setting a new
-- password. The calls' answers are arguments; the time that passes is the countdown's timer.
pub mod Countdown
pub mod Session
pub mod Forgot
pub mod Tests
use job_lens.Common.{
  ℕ, zero, suc, Bool, true, false, ◌&&◌, ◌||◌, not, Text, codes, Option, none, some, List, [], ◌∷◌,
  map, ◌-◌, if◌then◌else◌, leb, ltb, ◌==◌, text_eq, length, all, trim, is_empty,
}
use job_lens.Schema.{LoginResult}
use job_lens.Api.{Failure, api, error, Settled, ok, fail, ◌>>=◌}
use job_lens.Query.Cache.{QueryClient}
use job_lens.Query.Expiry.{Store}
use job_lens.Auth.{Outcome, prepared, signed_in, emptied, message_of}

-- `toLowerCase` is a parameter of the functions that use it.
pub record Registration : Type 0 where
  pub busy : Bool
  pub error_text : Text
  pub sent : Text
  pub email : Text
  pub remaining : ℕ

unfoldable pub opened : Registration
opened = record { busy = false; error_text = []; sent = []; email = []; remaining = 0 }

unfoldable pub type_email : Text → Registration → Registration
type_email t r = record r { email = t }

-- The timer of the effect: a second passes.
unfoldable pub tick : Registration → Registration
tick r = record r { remaining = r.remaining - 1 }

-- The button that sends a code.
unfoldable pub send_disabled : Registration → Bool
send_disabled r = r.busy || ltb 0 r.remaining

-- `sendCode` up to its calls; `valid` is what the browser says of the field. `none` where it returns.
unfoldable pub start_send : Bool → Registration → Option Registration
start_send valid r =
    if r.busy || not valid
    then none
    else some (record r { busy = true; error_text = []; sent = [] })

-- What `sendCode` does when its two calls have settled. The address is the one at its start.
unfoldable pub finish_send : (Text → Text) → Text → Settled (Unit {0}) → Registration → Registration
finish_send lower email (ok _) r = record r {
  sent = lower (trim email);
  remaining = 60;
  busy = false;
}
finish_send lower email (fail f) r = record r { error_text = message_of f; busy = false }

-- The note that a code was sent, for the address that the field holds.
unfoldable pub shows_sent : (Text → Text) → Registration → Bool
unfolding text_eq
shows_sent lower r = text_eq r.sent (lower (trim r.email)) && not (is_empty r.sent)

-- `/^[A-Za-z0-9_-]{43}$/.test(token)`.
abbrev pub is_token_char : ℕ → Bool
is_token_char c =
    (leb 65 c && leb c 90)
    || (leb 97 c && leb c 122)
    || (leb 48 c && leb c 57)
    || c == 95
    || c == 45

unfoldable pub is_token : Text → Bool
is_token t = length t == 43 && all is_token_char t

-- What the reset page shows.
pub data ResetView : Type 0 where
  finished entry incomplete : ResetView

pub record Reset : Type 0 where
  pub token : Text
  pub error_text : Text
  pub is_done : Bool

unfoldable pub reset_view : Reset → ResetView
unfolding is_token
reset_view r =
    if r.is_done
    then ResetView.finished
    else if is_token r.token
    then ResetView.entry
    else ResetView.incomplete

module _ (Q : QueryClient) where
  register_with : Settled LoginResult → Store Q → Outcome Q
  register_with (fail f) s = record { store = s; error_text = message_of f; went_to = none }
  register_with (ok r) s = record {
    store = signed_in Q r s;
    error_text = [];
    went_to = some (codes "/learner");
  }

  -- `submit` of the registration, with the answers to `/auth/csrf` and `/auth/register`.
  unfoldable pub register : Settled Text → Settled LoginResult → Store Q → Outcome Q
  unfolding register_with
  register (fail f) answer s = record { store = s; error_text = message_of f; went_to = none }
  register (ok token) answer s = register_with answer (prepared Q token s)

  reset_with : Settled (Unit {0}) → Reset → Store Q → Reset × Store Q
  reset_with (fail f) r s = (record r { error_text = message_of f }, s)
  reset_with (ok _) r s =
      (record { token = []; error_text = []; is_done = true }, record (emptied Q s) { csrf = none })

  -- `submit` of the reset page, with the answers to `/auth/csrf` and `/auth/password-resets`.
  unfoldable pub reset_password :
      Settled Text → Settled (Unit {0}) → Reset → Store Q → Reset × Store Q
  unfolding reset_with
  reset_password (fail f) answer r s = (record r { error_text = message_of f }, s)
  reset_password (ok token) answer r s =
      reset_with answer (record r { error_text = [] }) (prepared Q token s)
