-- ===== src/Training/Workspace/Hints.antt =====
-- TrainingPage.tsx and `useRecordHint` of queries.ts: the hint of a step, and the events that record
-- how often it was opened. A fresh id of `crypto.randomUUID` is an argument.
use job_lens.Common.{
  ℕ, suc, ◌+◌, ◌≡◌, refl, Bool, true, false, String, List, [], ◌∷◌, ◌++◌, length, arith,
  length-append,
}

-- The fields of the event that the program sets; `kind`, `value` and the time are the same for all.
pub record HintEvent : Type 0 where
  pub event_id : String
  pub session_id : String
  pub sequence : ℕ
  pub step_id : String

-- `showHint` of the page, the two refs of `useRecordHint`, and the events that were sent, in order.
pub record Hints : Type 0 where
  pub show_hint : Bool
  pub session_id : String
  pub sequence : ℕ
  pub sent : List HintEvent

pub opening : String → Hints
opening session = record { show_hint = false; session_id = session; sequence = 0; sent = [] }

-- `hint.mutate(step.id)`: `++sequence.current` is the event's number.
record_hint : String → String → Hints → Hints
record_hint event step h = record h {
  sequence = h.sequence + 1;
  sent =
      h.sent
      ++ record {
        event_id = event;
        session_id = h.session_id;
        sequence = h.sequence + 1;
        step_id = step;
      }
        ∷ [];
}

toggle_from : Bool → String → String → Hints → Hints
unfolding record_hint
toggle_from true event step h = record h { show_hint = false }
toggle_from false event step h = record_hint event step (record h { show_hint = true })

-- The button "看提示".
unfoldable pub toggle_hint : String → String → Hints → Hints
unfolding toggle_from
toggle_hint event step h = toggle_from h.show_hint event step h

-- The effect of another step: the hint is closed.
unfoldable pub change_step : Hints → Hints
change_step h = record h { show_hint = false }

pub data Action : Type 0 where
  toggle : (event step : String) → Action
  move_on : Action

act : Action → Hints → Hints
unfolding toggle_hint change_step
act (toggle event step) h = toggle_hint event step h
act move_on h = change_step h

pub run : List Action → Hints → Hints
run [] h = h
run (a ∷ as') h = run as' (act a h)

-- The events carry the numbers from `n + 1` on, in order, and the page's session.
abbrev pub CountFrom : ℕ → String → List HintEvent → Type 0
CountFrom n session [] = Unit
CountFrom n session (e ∷ es) =
    (e.sequence ≡ suc n) × (e.session_id ≡ session) × CountFrom (suc n) session es

CountFrom-append :
    (n k : ℕ) (session : String) (es : List HintEvent) (e : HintEvent)
    → k ≡ n + length es + 1
    → e.sequence ≡ k
    → e.session_id ≡ session
    → CountFrom n session es
    → CountFrom n session (es ++ e ∷ [])
CountFrom-append n k session [] e q s h c = (omega arith, h, tt)
CountFrom-append n k session (x ∷ es) e q s h (a, b, c) =
    (a, b, CountFrom-append (suc n) k session es e (omega arith) s h c)

pub record IsCounted (session : String) (h : Hints) : Type 0 where
  pub same_session : h.session_id ≡ session
  pub counted : h.sequence ≡ length h.sent
  pub numbered : CountFrom 0 session h.sent

record_hint-IsCounted :
    (session event step : String) (h : Hints)
    → IsCounted session h
    → IsCounted session (record_hint event step h)
unfolding record_hint
record_hint-IsCounted session event step h c = record {
  same_session = c.same_session;
  counted = omega (arith, c.counted, length-append {0} h.sent);
  numbered =
      CountFrom-append 0 (h.sequence + 1) session h.sent _ (omega (arith, c.counted)) refl
        c.same_session c.numbered;
}

toggle_from-IsCounted :
    (session event step : String) (b : Bool) (h : Hints)
    → IsCounted session h
    → IsCounted session (toggle_from b event step h)
unfolding toggle_from
toggle_from-IsCounted session event step true h c = record {
  same_session = c.same_session;
  counted = c.counted;
  numbered = c.numbered;
}
toggle_from-IsCounted session event step false h c =
    record_hint-IsCounted session event step (record h { show_hint = true })
      (record { same_session = c.same_session; counted = c.counted; numbered = c.numbered })

act-IsCounted :
    (session : String) (a : Action) (h : Hints) → IsCounted session h → IsCounted session (act a h)
unfolding act toggle_hint change_step
act-IsCounted session move_on h c = record {
  same_session = c.same_session;
  counted = c.counted;
  numbered = c.numbered;
}
act-IsCounted session (toggle event step) h c =
    toggle_from-IsCounted session event step h.show_hint h c

run-IsCounted_from :
    (session : String) (as' : List Action) (h : Hints)
    → IsCounted session h
    → IsCounted session (run as' h)
unfolding run
run-IsCounted_from session [] h c = c
run-IsCounted_from session (a ∷ as') h c =
    run-IsCounted_from session as' (act a h) (act-IsCounted session a h c)

-- However the hint is opened and closed and whatever steps follow, the events of one page carry one
-- session and the numbers 1, 2, 3, ... with no gap and no number twice.
pub run-IsCounted :
    (session : String) (as' : List Action) → IsCounted session (run as' (opening session))
unfolding opening
run-IsCounted session as' =
    run-IsCounted_from session as' (opening session)
      (record { same_session = refl; counted = refl; numbered = tt })
