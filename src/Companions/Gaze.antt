-- ===== src/Companions/Gaze.antt =====
-- apps/web/src/shared/ui/Buddy.tsx: where the companion looks. Its two coordinates run after a target,
-- which the pointer sets, or a slow sway where the pointer rests.
use job_lens.Common.{
  ◌≡◌, Bool, true, false, List, [], ◌∷◌, if◌then◌else◌, arith, Bool-cases, inl, inr,
}

-- The numbers of JavaScript that the gaze is made of. `sway_turn` and `sway_nod` are the sums of sines
-- at a time, which stay below one, and `rested` is
-- `now - lastMove > 4000`; `blend a b` is `a + (b - a) * 0.06`, which lies between its ends.
pub record Numbers : Type 1 where
  pub Num : Type 0
  pub minus_one : Num
  pub one : Num
  pub start : Num
  pub level : Num
  pub aside : Num
  pub leb : Num → Num → Bool
  pub blend : Num → Num → Num
  pub Time : Type 0
  pub origin : Time
  pub rested : (now last : Time) → Bool
  pub sway_turn : Time → Num
  pub sway_nod : Time → Num
  pub leb_refl : (a : Num) → leb a a ≡ true
  pub leb_total : (a b : Num) → leb a b ≡ false → leb b a ≡ true
  pub blend-above : (lo a b : Num) → leb lo a ≡ true → leb lo b ≡ true → leb lo (blend a b) ≡ true
  pub blend-below : (hi a b : Num) → leb a hi ≡ true → leb b hi ≡ true → leb (blend a b) hi ≡ true
  pub ends : leb minus_one one ≡ true
  pub start_above : leb minus_one start ≡ true
  pub start_below : leb start one ≡ true
  pub level_above : leb minus_one level ≡ true
  pub level_below : leb level one ≡ true
  pub aside_above : leb minus_one aside ≡ true
  pub aside_below : leb aside one ≡ true
  pub turn_above : (t : Time) → leb minus_one (sway_turn t) ≡ true
  pub turn_below : (t : Time) → leb (sway_turn t) one ≡ true
  pub nod_above : (t : Time) → leb minus_one (sway_nod t) ≡ true
  pub nod_below : (t : Time) → leb (sway_nod t) one ≡ true

module _ (N : Numbers) where
  open N use {Num, minus_one, one, start, level, aside, leb, blend, Time, origin, rested}

  pub record Point : Type 0 where
    pub turn : Num
    pub nod : Num

  pub record Gaze : Type 0 where
    pub target : Point
    pub current : Point
    pub last_move : Time

  unfoldable pub began : Gaze
  began = record {
    target = record { turn = start; nod = level };
    current = record { turn = start; nod = level };
    last_move = origin;
  }

  -- `Math.max(-1, Math.min(1, v))`.
  unfoldable pub clamp : Num → Num
  clamp v = let low = if leb one v then one else v in if leb minus_one low then low else minus_one

  -- `onMove`, with the quotients of the pointer's offset at a time.
  unfoldable pub on_move : Num → Num → Time → Gaze → Gaze
  unfolding clamp
  on_move x y now g = record g {
    target = record { turn = clamp x; nod = clamp y };
    last_move = now;
  }

  follow : Point → Gaze → Gaze
  follow target g = record g {
    target = target;
    current = record {
      turn = blend g.current.turn target.turn;
      nod = blend g.current.nod target.nod;
    };
  }

  -- `tick`.
  unfoldable pub tick : Time → Gaze → Gaze
  unfolding follow
  tick now g =
      follow
        (if rested now g.last_move
          then record { turn = N.sway_turn now; nod = N.sway_nod now }
          else g.target)
        g

  -- What the effect writes to `--turn` and `--nod` where the companion does not move.
  unfoldable pub still : Point
  still = record { turn = aside; nod = level }

  pub data Event : Type 0 where
    moved : (x y : Num) → (now : Time) → Event
    framed : (now : Time) → Event

  unfoldable pub look : List Event → Gaze → Gaze
  unfolding on_move tick
  look [] g = g
  look (moved x y now ∷ es) g = look es (on_move x y now g)
  look (framed now ∷ es) g = look es (tick now g)

  -- From −1 to 1.
  abbrev pub IsTurn : Num → Type 0
  IsTurn v = (leb minus_one v ≡ true) × (leb v one ≡ true)

  abbrev pub IsAhead : Point → Type 0
  IsAhead p = IsTurn p.turn × IsTurn p.nod

  clamp-IsTurn : (v : Num) → IsTurn (clamp v)
  unfolding clamp
  clamp-IsTurn v = ground (
    arith,
    N.leb_total one v,
    N.leb_total minus_one v,
    N.leb_total minus_one one,
    N.ends,
    N.leb_refl one,
    N.leb_refl minus_one,
  )

  blend-IsTurn : (a b : Num) → IsTurn a → IsTurn b → IsTurn (blend a b)
  blend-IsTurn a b (l, h) (l', h') = (N.blend-above minus_one a b l l', N.blend-below one a b h h')

  abbrev Bounded : Gaze → Type 0
  Bounded g = IsAhead g.target × IsAhead g.current

  sway-IsAhead : (t : Time) → IsAhead (record { turn = N.sway_turn t; nod = N.sway_nod t })
  sway-IsAhead t = ((N.turn_above t, N.turn_below t), (N.nod_above t, N.nod_below t))

  follow-Bounded : (p : Point) (g : Gaze) → IsAhead p → Bounded g → Bounded (follow p g)
  unfolding follow
  follow-Bounded p g (a, b) (_, (c, d)) =
      ((a, b), (blend-IsTurn g.current.turn p.turn c a, blend-IsTurn g.current.nod p.nod d b))

  tick-Bounded : (now : Time) (g : Gaze) → Bounded g → Bounded (tick now g)
  unfolding tick
  tick-Bounded now g h = elim (Bool-cases (rested now g.last_move)) [
    | inl alone ↦ rw alone (follow-Bounded _ g (sway-IsAhead now) h)
    | inr led ↦ rw led (follow-Bounded g.target g (h.0) h)
  ]

  look-Bounded : (es : List Event) (g : Gaze) → Bounded g → Bounded (look es g)
  unfolding look on_move
  look-Bounded [] g h = h
  look-Bounded (moved x y now ∷ es) g (_, c) =
      look-Bounded es (on_move x y now g) ((clamp-IsTurn x, clamp-IsTurn y), c)
  look-Bounded (framed now ∷ es) g h = look-Bounded es (tick now g) (tick-Bounded now g h)

  started : IsAhead (record { turn = start; nod = level })
  started = ((N.start_above, N.start_below), (N.level_above, N.level_below))

  -- Whatever the pointer does and whenever the frames come, both coordinates that the drawing uses
  -- stay from −1 to 1, and so do those of a companion at rest.
  pub look-IsAhead : (es : List Event) → IsAhead (look es began).current × IsAhead still
  unfolding began still
  look-IsAhead es = (
    (look-Bounded es began (started, started)).1,
    ((N.aside_above, N.aside_below), (N.level_above, N.level_below)),
  )
