-- ===== src/Shell/Drawer/Keyboard.antt =====
-- The keyboard in the drawer of WorkspaceShell.tsx.
use job_lens.Common.{
  ℕ, zero, suc, ◌+◌, ◌-◌, ◌≤◌, ◌<◌, ◌≡◌, refl, Bool, true, false, List, [], ◌∷◌, leb, arith,
  Bool-cases, inl, inr,
}
use job_lens.Shell.Drawer.{
  Focus, control, menu_button, elsewhere, Shell, opened, is_modal, tab, Browser, Event, step,
  handle, settle, toggle, resize, resized, navigated, menu_pressed, scrim_pressed, row_pressed,
  escape, tabbed, run,
}

-- What the HTML standard says of Tab inside the sidebar, whose `n` controls stand in its order.
pub record IsOrdered (browser : Browser) (n : ℕ) : Type 0 where
  pub next : (i : ℕ) → i + 1 < n → browser false (control i) ≡ control (i + 1)
  pub previous : (i : ℕ) → i + 1 < n → browser true (control (i + 1)) ≡ control i

-- The focus is on a control of the sidebar.
abbrev pub Inside : ℕ → Focus → Type 0
Inside n (control i) = i < n
Inside n menu_button = ⊥
Inside n elsewhere = ⊥

-- The drawer is open and control `i` has the focus.
abbrev pub At : ℕ → Shell → Type 0
At i s = (is_modal s ≡ true) × (s.focus ≡ control i)

-- The presses of Tab.
unfoldable pub tabs : ℕ → List Event
tabs zero = []
tabs (suc k) = tabbed false ∷ tabs k

module _ (browser : Browser) (n : ℕ) (order : IsOrdered browser n) (enough : 1 < n) where
  tab_next : (i : ℕ) → i + 1 < n → tab browser n false (control i) ≡ control (i + 1)
  unfolding tab
  tab_next i h = ground (arith, order.next i h)

  tab_around : tab browser n false (control (n - 1)) ≡ control 0
  unfolding tab
  tab_around = ground arith

  tab-Inside : (back : Bool) (f : Focus) → Inside n f → Inside n (tab browser n back f)
  unfolding tab
  tab-Inside true (control zero) h = ground arith
  tab-Inside true (control (suc i)) h = ground (arith, order.previous i)
  tab-Inside back menu_button h = absurd h
  tab-Inside back elsewhere h = absurd h
  tab-Inside false (control i) h = ground (arith, order.next i)

  -- While the drawer is modal, the focus is inside.
  abbrev Kept : Shell → Type 0
  Kept s = is_modal s ≡ true → Inside n s.focus

  step-Kept : (e : Event) (s : Shell) → Kept s → Kept (step browser n e s)
  unfolding step handle settle toggle resize
  step-Kept (resized width) s h = ground arith
  step-Kept navigated s h = ground arith
  step-Kept menu_pressed s h = ground arith
  step-Kept scrim_pressed s h = ground arith
  step-Kept row_pressed s h = ground arith
  step-Kept escape s h = ground arith
  step-Kept (tabbed back) s h = ground (arith, tab-Inside back s.focus)

  run-Kept : (es : List Event) (s : Shell) → Kept s → Kept (run browser n es s)
  unfolding run
  run-Kept [] s h = h
  run-Kept (e ∷ es) s h = run-Kept es (step browser n e s) (step-Kept e s h)

  -- However the window is resized, the pages change, the buttons of the menu, the scrim and the
  -- row of the brand are pressed and the keys Tab and Escape are used, the focus is on a control
  -- of the sidebar whenever the drawer lies over the page. The sidebar has at least two controls,
  -- and Tab goes through them in their order.
  pub run-Inside :
      (es : List Event) (width : ℕ) (f : Focus)
      → is_modal (run browser n es (opened width f)) ≡ true
      → Inside n (run browser n es (opened width f)).focus
  unfolding opened
  run-Inside es width f = run-Kept es (opened width f) (λ m. absurd (ground arith))

  step-next :
      (s : Shell) (i : ℕ) → i + 1 < n → At i s → At (i + 1) (step browser n (tabbed false) s)
  unfolding step handle settle
  step-next s i h (m, f) = ground (arith, tab_next i h)

  step-around : (s : Shell) → At (n - 1) s → At 0 (step browser n (tabbed false) s)
  unfolding step handle settle
  step-around s (m, f) = ground (arith, tab_around)

  tabs-forward :
      (k i j : ℕ) (s : Shell) → i + k ≡ j → j < n → At i s → At j (run browser n (tabs k) s)
  unfolding run tabs
  tabs-forward zero i j s e h a = let same_place : i ≡ j = omega arith in rw (← same_place) a
  tabs-forward (suc k) i j s e h a =
      tabs-forward k (i + 1) j (step browser n (tabbed false) s) (omega arith) h
        (step-next s i (omega arith) a)

  run-tabs :
      (a b c : ℕ) (s : Shell)
      → a + b ≡ c
      → run browser n (tabs c) s ≡ run browser n (tabs b) (run browser n (tabs a) s)
  unfolding run tabs
  run-tabs zero b c s e = let all_of_them : c ≡ b = omega arith in rw all_of_them refl
  run-tabs (suc a) b zero s e = absurd (omega arith)
  run-tabs (suc a) b (suc c) s e = run-tabs a b c (step browser n (tabbed false) s) (omega arith)

  around :
      (i j : ℕ) (s : Shell) → i < n → j < n → At i s → At j (run browser n (tabs (n - i + j)) s)
  unfolding run tabs
  around i j s h k a =
      let last = tabs-forward (n - 1 - i) i (n - 1) s (omega arith) (omega arith) a in
      rw (run-tabs (n - 1 - i) (suc j) (n - i + j) s (omega arith)) (
        tabs-forward j 0 j (step browser n (tabbed false) (run browser n (tabs (n - 1 - i)) s))
          (omega arith) k (step-around (run browser n (tabs (n - 1 - i)) s) last))

  -- From any control of the open drawer, the key Tab reaches any other after at most `n` presses,
  -- and the drawer is still open. The sidebar has `n` controls, at least two, and Tab goes through
  -- them in their order.
  pub tabs-reach :
      (i j : ℕ) (s : Shell)
      → i < n
      → j < n
      → At i s
      → (k : ℕ) × (k ≤ n) × At j (run browser n (tabs k) s)
  tabs-reach i j s h l a = elim (Bool-cases (leb i j)) [
    | inl forward ↦ (j - i, omega arith, tabs-forward (j - i) i j s (ground arith) l a)
    | inr behind ↦ (n - i + j, ground arith, around i j s h l a)
  ]
