-- ===== src/Account/Forgot.antt =====
-- `ForgotPasswordPage` of apps/web/src/features/auth/AccountPages.tsx, and the texts of the
-- registration's buttons. The calls' answers are arguments.
use job_lens.Common.{
  Bool, true, false, Text, codes, Option, none, some, [], ◌++◌, if◌then◌else◌, is_empty, ltb, trim,
}
use job_lens.Api.{Settled, ok, fail}
use job_lens.Api.Decimal.{decimal}
use job_lens.Auth.{message_of}
use job_lens.Account.{Registration, send_disabled, shows_sent}

pub record Forgot : Type 0 where
  pub busy : Bool
  pub error_text : Text
  pub sent : Text

unfoldable pub opened : Forgot
opened = record { busy = false; error_text = []; sent = [] }

-- `submit` up to its calls: the address that it sends. `none` where it returns.
unfoldable pub start : Text → Forgot → Option (Text × Forgot)
start email f =
    if f.busy then none else some (trim email, record { busy = true; error_text = []; sent = [] })

-- What follows the answers to `/auth/csrf` and `/auth/password-reset-requests`.
finish_with : Settled Text → Forgot → Forgot
finish_with (ok message) f = record f { busy = false; sent = message }
finish_with (fail e) f = record f { busy = false; error_text = message_of e }

unfoldable pub finish : Settled Text → Settled Text → Forgot → Forgot
unfolding finish_with
finish (ok token) answer f = finish_with answer f
finish (fail e) answer f = finish_with (fail e) f

-- `FormError` and the note under the form.
unfoldable pub notes : Forgot → Option Text × Option Text
notes f = (
  if is_empty f.error_text then none else some f.error_text,
  if is_empty f.sent then none else some f.sent,
)

unfoldable pub button_text : Forgot → Text
button_text f = if f.busy then codes "正在发送…" else codes "发送找回链接"

-- The texts of the registration.
pub record Shown : Type 0 where
  pub send_text : Text
  pub send_disabled : Bool
  pub sent_note : Bool
  pub submit_text : Text

unfoldable pub registration : (Text → Text) → Registration → Shown
unfolding send_disabled shows_sent decimal
registration lower r = record {
  send_text = if ltb 0 r.remaining then decimal r.remaining ++ codes " 秒后重发" else codes "获取验证码";
  send_disabled = send_disabled r;
  sent_note = shows_sent lower r;
  submit_text = if r.busy then codes "正在处理…" else codes "注册";
}
