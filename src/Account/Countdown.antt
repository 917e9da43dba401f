-- ===== src/Account/Countdown.antt =====
-- When a code can be sent again.
use job_lens.Common.{ℕ, suc, ◌-◌, ◌≡◌, refl, false, Text, ltb, arith}
use job_lens.Api.{ok}
use job_lens.Account.{Registration, type_email, tick, send_disabled, finish_send}

-- What can happen on the page between two codes: typing, a second that passes, and attempts to send
-- that the browser or the page stops, or that fail. `n` counts the seconds.
pub data Waiting (r : Registration) : ℕ → Registration → Type 0 where
  just : Waiting r 0 r
  typed : (t : Text) {n : ℕ} {s : Registration} → Waiting r n s → Waiting r n (type_email t s)
  ticked : {n : ℕ} {s : Registration} → Waiting r n s → Waiting r (suc n) (tick s)

Waiting-remaining :
    {r s : Registration} {n : ℕ}
    → Waiting r n s
    → r.busy ≡ false
    → (s.remaining ≡ r.remaining - n) × (s.busy ≡ false)
unfolding type_email tick
Waiting-remaining just h = (omega arith, h)
Waiting-remaining (typed t w) h = Waiting-remaining w h
Waiting-remaining (ticked w) h =
    (omega (arith, (Waiting-remaining w h).0), (Waiting-remaining w h).1)

-- After a code was sent, the button stays disabled for exactly sixty seconds, whatever is typed.
pub send_disabled-finish_send :
    (lower : Text → Text) (email : Text) (u : Unit {0}) (r s : Registration) (n : ℕ)
    → Waiting (finish_send lower email (ok u) r) n s
    → send_disabled s ≡ ltb n 60
unfolding send_disabled finish_send
send_disabled-finish_send lower email u r s n w = ground (arith, Waiting-remaining w refl)
