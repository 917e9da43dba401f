-- ===== src/Account/Tests.antt =====
-- A code that is sent, and a password that is set anew.
use job_lens.Common.{◌≡◌, refl, true, false, none, [], ◌∷◌, codes, Text, trim, text_eq}
use job_lens.Schema.{Role, LoginResult}
use job_lens.Api.{ok}
use job_lens.Query.Expiry.{Store}
use job_lens.Query.Model.{table_client}
use job_lens.Account.{
  Registration, opened, type_email, finish_send, shows_sent, is_token, Reset, ResetView, reset_view,
}

-- Addresses without capitals.
abbrev same_case : Text → Text
same_case t = t

abbrev sent_code : Registration
sent_code = finish_send same_case (codes "a@b.cn ") (ok tt) (type_email (codes "a@b.cn ") opened)

note_shown : shows_sent same_case sent_code ≡ true
unfolding shows_sent finish_send type_email opened text_eq trim
note_shown = refl

abbrev new_user : LoginResult
new_user = record {
  user = record { id = "u"; display_name = codes "小林"; roles = Role.learner ∷ [] };
  csrf_token = codes "new";
}

abbrev visitor : Store table_client
visitor = record { cache = λ k. none; csrf = none }

abbrev link : Reset
link = record {
  token = codes "0123456789abcdefghijABCDEFGHIJ0123456789-_x";
  error_text = [];
  is_done = false;
}

link_accepted : reset_view link ≡ ResetView.entry
unfolding reset_view is_token
link_accepted = refl
