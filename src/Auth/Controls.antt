-- ===== src/Auth/Controls.antt =====
-- What apps/web/src/features/auth/public.tsx shows besides its forms: the login page, the button that
-- signs out, and the short navigation.
use job_lens.Common.{
  Bool, not, Text, codes, Option, none, some, List, [], ◌∷◌, ◌++◌, if◌then◌else◌, is_empty,
}
use job_lens.Schema.{User, Role}
use job_lens.Auth.{has_role}

pub record LoginView : Type 0 where
  pub expired_note : Bool
  pub error_text : Option Text
  pub button_text : Text
  pub button_disabled : Bool

-- The login page, by the `expired` of its state, whether a call runs, and the text of the error.
unfoldable pub login_view : Bool → Bool → Text → LoginView
login_view expired busy error_text = record {
  expired_note = expired;
  error_text = if is_empty error_text then none else some error_text;
  button_text = if busy then codes "正在登录…" else codes "登录";
  button_disabled = busy;
}

pub record Controls : Type 0 where
  pub profile_link : Bool
  pub button_text : Text
  pub button_label : Text
  pub button_disabled : Bool
  pub error_text : Option Text

-- `SessionControls`: nothing without a session.
unfoldable pub session_controls : Bool → Option User → Bool → Text → Option Controls
session_controls compact none busy error_text = none
session_controls compact (some u) busy error_text = some (record {
  profile_link = not compact;
  button_text = if busy then codes "正在退出…" else codes "退出登录";
  button_label = if busy then codes "正在退出…" else codes "退出登录";
  button_disabled = busy;
  error_text = if is_empty error_text then none else some error_text;
})

-- `WorkspaceNavigation`: its links.
unfoldable pub workspace_navigation : Option User → List Text
unfolding has_role
workspace_navigation none = []
workspace_navigation (some u) =
    ((if has_role Role.learner u then codes "/learner" ∷ codes "/learner/records" ∷ [] else [])
      ++ (if has_role Role.counselor u
          then codes "/counselor" ∷ codes "/counselor/support" ∷ []
          else []))
    ++ codes "/notifications" ∷ codes "/preferences" ∷ []
