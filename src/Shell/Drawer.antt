-- ===== src/Shell/Drawer.antt =====
-- The sidebar of apps/web/src/app/WorkspaceShell.tsx: its drawer on a narrow window, its handlers, the
-- effect that keeps the keyboard inside, and the attributes that it sets.
pub mod Keyboard
use job_lens.Common.{
  ℕ, ◌-◌, Bool, true, false, ◌&&◌, not, Text, codes, List, [], ◌∷◌, if◌then◌else◌, leb, ltb, ◌==◌,
}
use job_lens.Shell.{IconName}

-- What has the focus: the control of the sidebar with this number, the button of the menu, or
-- something else.
pub data Focus : Type 0 where
  control : ℕ → Focus
  menu_button elsewhere : Focus

pub record Shell : Type 0 where
  pub collapsed : Bool
  pub narrow : Bool
  pub drawer_open : Bool
  pub focus : Focus

-- `window.innerWidth <= 760`.
abbrev pub is_narrow : ℕ → Bool
is_narrow width = leb width 760

unfoldable pub opened : ℕ → Focus → Shell
opened width f = record {
  collapsed = false;
  narrow = is_narrow width;
  drawer_open = false;
  focus = f;
}

-- The drawer lies over the page.
abbrev pub is_modal : Shell → Bool
is_modal s = s.narrow && s.drawer_open

abbrev close : Shell → Shell
close s = record s { drawer_open = false }

-- `onClick` of the button in the row of the brand.
toggle : Shell → Shell
toggle s = if s.narrow then close s else record s { collapsed = not s.collapsed }

-- The listener of `resize`.
resize : ℕ → Shell → Shell
resize width s =
    if is_narrow width
    then record s { narrow = true }
    else record s { narrow = false; drawer_open = false }

-- The effect on `[narrow, drawerOpen]`: where the drawer opens, its first button, the one after the
-- link of the brand, takes the focus; where it closes, the clean-up gives it to the button of the
-- menu.
settle : Bool → Shell → Shell
settle was s =
    if is_modal s
    then (if was then s else record s { focus = control 1 })
    else (if was then record s { focus = menu_button } else s)

-- `document.activeElement === first` or outside of the sidebar, and the same for `last`; there are
-- `n` controls.
abbrev pub at_first : Focus → Bool
at_first (control i) = i == 0
at_first menu_button = true
at_first elsewhere = true

abbrev pub at_last : ℕ → Focus → Bool
at_last n (control i) = i == n - 1
at_last n menu_button = true
at_last n elsewhere = true

-- What Tab does where the page does not prevent it: to the next control, or to the one before.
abbrev pub Browser : Type 0
Browser = (back : Bool) → Focus → Focus

-- `onKey` for the key Tab, which it leaves alone where there is no control.
unfoldable pub tab : Browser → ℕ → Bool → Focus → Focus
tab browser n true f = if ltb 0 n && at_first f then control (n - 1) else browser true f
tab browser n false f = if ltb 0 n && at_last n f then control 0 else browser false f

pub data Event : Type 0 where
  resized : (width : ℕ) → Event
  navigated menu_pressed scrim_pressed row_pressed escape : Event
  tabbed : (back : Bool) → Event

-- The handlers. The scrim is there, and the listener of the keyboard, while the drawer is modal.
handle : Browser → ℕ → Event → Shell → Shell
unfolding toggle resize tab
handle browser n (resized width) s = resize width s
handle browser n navigated s = close s
handle browser n menu_pressed s = record s { drawer_open = true }
handle browser n scrim_pressed s = if is_modal s then close s else s
handle browser n row_pressed s = toggle s
handle browser n escape s = if is_modal s then close s else s
handle browser n (tabbed back) s =
    if is_modal s
    then record s { focus = tab browser n back s.focus }
    else record s { focus = browser back s.focus }

-- A handler, and then the effect.
unfoldable pub step : Browser → ℕ → Event → Shell → Shell
unfolding handle settle
step browser n e s = settle (is_modal s) (handle browser n e s)

-- The attributes that depend on the state.
pub record Attributes : Type 0 where
  pub dialog : Bool
  pub aria_modal : Bool
  pub sidebar_hidden : Bool
  pub sidebar_inert : Bool
  pub body_inert : Bool
  pub scrim : Bool
  pub row_label : Text
  pub row_icon : IconName

unfoldable pub attributes : Shell → Attributes
attributes s = record {
  dialog = s.narrow;
  aria_modal = s.narrow && s.drawer_open;
  sidebar_hidden = s.narrow && not s.drawer_open;
  sidebar_inert = s.narrow && not s.drawer_open;
  body_inert = s.narrow && s.drawer_open;
  scrim = s.narrow && s.drawer_open;
  row_label = if s.narrow then codes "关闭菜单" else if s.collapsed then codes "展开侧栏" else codes "收起侧栏";
  row_icon = if s.narrow then IconName.close else IconName.sidebar;
}

-- Events in order.
unfoldable pub run : Browser → ℕ → List Event → Shell → Shell
unfolding step
run browser n [] s = s
run browser n (e ∷ es) s = run browser n es (step browser n e s)
