-- ===== src/Training/Feedback/Laws.antt =====
-- The feedback that FeedbackForm.tsx sends, against the checks of the API.
use job_lens.Common.{
  ℕ, ◌≤◌, ◌≡◌, refl, Bool, true, false, ◌&&◌, ◌||◌, not, String, Text, some, List, [], ◌∷◌, ◌++◌,
  if◌then◌else◌, same, same_iff, trim, filled, filled-trim, length, length-trim, includes,
  includes-without, includes-add, includes-unique, Distinct, Distinct-add, Distinct-without,
  unique-Distinct, without, add, leb, all, All, ◌==◌, Distinct-length, is_space, filled-not_blank,
  arith,
}
use job_lens.Schema.{Submission, FeedbackCreate, FeedbackTag, Outcome}
use job_lens.Training.Feedback.Tags.{Once, Once-toggle_tag, tags-le}
use job_lens.Training.Rules.{within_limits, validate_feedback, all_distinct, is_stripped, py_filled}
use job_lens.Training.Feedback.{
  Form, initial, toggle_tag, toggle_redo, choose, type_message, annotated, submit, evidence_ids,
  attachments_of,
}

-- An edit of the form. A box stands for a step of the revision, and the text field holds at most 500
-- characters.
pub data Edit (steps : List String) : Form → Form → Type 0 where
  chosen : (o : Outcome) (f : Form) → Edit steps f (choose o f)
  typed : (t : Text) (f : Form) → length t ≤ 500 → Edit steps f (type_message t f)
  tagged : (t : FeedbackTag) (f : Form) → Edit steps f (toggle_tag t f)
  ticked : (id : String) (f : Form) → includes steps id ≡ true → Edit steps f (toggle_redo id f)
  marked : (id : String) (f : Form) → Edit steps f (annotated id f)

pub data Edits (steps : List String) (f : Form) : Form → Type 0 where
  here : Edits steps f f
  next : {g h : Form} → Edits steps f g → Edit steps g h → Edits steps f h

-- Every ticked step is a step of the revision.
abbrev Within : List String → List String → Type 0
Within steps [] = Unit
Within steps (x ∷ xs) = (includes steps x ≡ true) × Within steps xs

Within-append_one :
    (steps xs : List String) (i : String)
    → Within steps xs
    → includes steps i ≡ true
    → Within steps (xs ++ i ∷ [])
Within-append_one steps [] i w h = (h, tt)
Within-append_one steps (x ∷ xs) i (p, w) h = (p, Within-append_one steps xs i w h)

Within-add :
    (steps xs : List String) (i : String)
    → Within steps xs
    → includes steps i ≡ true
    → Within steps (add i xs)
unfolding add
Within-add steps xs i w h = ground (arith, Within-append_one steps xs i w h)

Within-without :
    (steps xs : List String) (i : String) → Within steps xs → Within steps (without i xs)
unfolding without
Within-without steps [] i w = tt
Within-without steps (x ∷ xs) i (p, w) = ground (arith, Within-without steps xs i w)

pub record IsSound (steps : List String) (f : Form) : Type 0 where
  pub once : Once f.tags
  pub short : length f.message ≤ 500
  pub distinct : Distinct f.redo
  pub within : Within steps f.redo

Edit-IsSound :
    (steps : List String) {f g : Form} → Edit steps f g → IsSound steps f → IsSound steps g
unfolding choose type_message toggle_tag toggle_redo annotated
Edit-IsSound steps (chosen o f) s = record {
  once = s.once;
  short = s.short;
  distinct = s.distinct;
  within = s.within;
}
Edit-IsSound steps (typed t f h) s = record {
  once = s.once;
  short = h;
  distinct = s.distinct;
  within = s.within;
}
Edit-IsSound steps (tagged t f) s = record {
  once = Once-toggle_tag t f s.once;
  short = s.short;
  distinct = s.distinct;
  within = s.within;
}
Edit-IsSound steps (marked id f) s = record {
  once = s.once;
  short = s.short;
  distinct = s.distinct;
  within = s.within;
}
Edit-IsSound steps (ticked id f h) s = record {
  once = s.once;
  short = s.short;
  distinct =
      ground (arith, Distinct-add id f.redo s.distinct, Distinct-without id f.redo s.distinct);
  within =
      ground
        (arith, Within-add steps f.redo id s.within h, Within-without steps f.redo id s.within);
}

Edits-IsSound :
    (steps : List String) {f g : Form} → Edits steps f g → IsSound steps f → IsSound steps g
Edits-IsSound steps here s = s
Edits-IsSound steps (next es e) s = Edit-IsSound steps e (Edits-IsSound steps es s)

initial-IsSound : (steps : List String) → IsSound steps initial
unfolding initial
initial-IsSound steps = record {
  once = λ t. omega arith;
  short = omega arith;
  distinct = tt;
  within = tt;
}

all_distinct_of : (xs : List String) → Distinct xs → all_distinct xs ≡ true
unfolding all_distinct
all_distinct_of [] d = refl
all_distinct_of (x ∷ xs) (new, d) = ground (arith, all_distinct_of xs d)

all-Within : (steps xs : List String) → Within steps xs → all (includes steps) xs ≡ true
all-Within steps [] w = refl
all-Within steps (x ∷ xs) (p, w) = ground (arith, all-Within steps xs w)

-- The control characters that Python takes for white space and JavaScript does not.
abbrev pub is_separator : ℕ → Bool
is_separator c = (leb 28 c && leb c 31) || c == 0x85

stripped-is_space : (c : ℕ) → is_separator c ≡ false → is_stripped c ≡ true → is_space c ≡ true
unfolding is_stripped is_space
stripped-is_space c h k = ground arith

stripped-blank :
    (t : Text)
    → All (λ c. is_separator c ≡ false) t
    → all is_stripped t ≡ true
    → all is_space t ≡ true
stripped-blank [] h k = refl
stripped-blank (c ∷ t) (p, h) k = ground (arith, stripped-is_space c p, stripped-blank t h)

py_filled_of :
    (t : Text) → All (λ c. is_separator c ≡ false) t → filled t ≡ true → py_filled t ≡ true
py_filled_of t h k = ground (arith, stripped-blank t h, filled-not_blank t)

submit-valid :
    (steps : List String) (busy : Bool) (s : Submission) (f : Form) (n : ℕ) (b : FeedbackCreate)
    → IsSound steps f
    → All (λ c. is_separator c ≡ false) b.message
    → submit busy s f ≡ some (n, b)
    → (n ≡ s.task_version) × (validate_feedback b steps ≡ true)
unfolding submit validate_feedback
submit-valid steps busy s f n b sound plain h = (
  ground arith,
  ground (
    arith,
    py_filled_of b.message plain,
    filled-trim f.message,
    length-trim f.message,
    all_distinct_of f.redo sound.distinct,
    all-Within steps f.redo sound.within,
  ),
)

Within-includes :
    (steps xs : List String) (j : String)
    → Within steps xs
    → includes xs j ≡ true
    → includes steps j ≡ true
unfolding includes
Within-includes steps [] j w h = absurd (ground arith)
Within-includes steps (x ∷ xs) j (p, w) h =
    ground (arith, same_iff x j, Within-includes steps xs j w)

redo-le : (steps : List String) (f : Form) → IsSound steps f → length f.redo ≤ length steps
redo-le steps f sound =
    Distinct-length f.redo steps sound.distinct (λ j. Within-includes steps f.redo j sound.within)

filled-length : (t : Text) → filled t ≡ true → 1 ≤ length t
filled-length [] h = absurd (ground (arith, filled-not_blank []))
filled-length (c ∷ t) h = omega arith

submit-within :
    (steps : List String) (busy : Bool) (s : Submission) (f : Form) (n : ℕ) (b : FeedbackCreate)
    → length steps ≤ 100
    → IsSound steps f
    → submit busy s f ≡ some (n, b)
    → within_limits b ≡ leb (length b.annotation_ids) 20
unfolding submit within_limits
submit-within steps busy s f n b small sound h = ground (
  arith,
  small,
  tags-le f sound.once,
  redo-le steps f sound,
  sound.short,
  filled-trim f.message,
  filled-length (trim f.message),
  length-trim f.message,
)

-- However the form was filled in from its start, with a message of at most 500 characters and boxes
-- for the steps of a revision of at most 100 steps, what its button sends names the version of the
-- task that the submission was read with and passes the checks of rules.py; and it is within the
-- limits of the API's schema exactly where it has at most 20 annotations, which the form does not see
-- to. The message that is sent is assumed to hold none of the control characters U+001C to U+001F and
-- U+0085, which Python strips and JavaScript does not.
pub submit-validate_feedback :
    (steps : List String) (busy : Bool) (s : Submission) (f : Form) (n : ℕ) (b : FeedbackCreate)
    → length steps ≤ 100
    → Edits steps initial f
    → All (λ c. is_separator c ≡ false) b.message
    → submit busy s f ≡ some (n, b)
    → (n ≡ s.task_version)
      × (validate_feedback b steps ≡ true)
      × (within_limits b ≡ leb (length b.annotation_ids) 20)
submit-validate_feedback steps busy s f n b small es plain h =
    let sound = Edits-IsSound steps es (initial-IsSound steps) in
    let (version, checks) = submit-valid steps busy s f n b sound plain h in
    (version, checks, submit-within steps busy s f n b small sound h)

-- Ticking a step turns its own box over and no other.
pub includes-toggle_redo :
    (i : String) (f : Form) (j : String)
    → includes (toggle_redo i f).redo j
      ≡ (if same i j then not (includes f.redo i) else includes f.redo j)
unfolding toggle_redo
includes-toggle_redo i f j =
    ground (arith, includes-without i f.redo j, includes-add i f.redo j, same_iff i j)

-- The files under review are those of the snapshot's steps, each once.
pub evidence_ids_lem :
    (s : Submission) (j : String)
    → Distinct (evidence_ids s)
      × (includes (evidence_ids s) j ≡ includes (attachments_of s.snapshot.progress) j)
unfolding evidence_ids
evidence_ids_lem s j = (unique-Distinct _, includes-unique _ j)
