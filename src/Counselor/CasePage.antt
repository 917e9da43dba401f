-- ===== src/Counselor/CasePage.antt =====
-- apps/web/src/features/counselor/CasePage.tsx and ProfileView.tsx. `V` is the type of a volume and
-- `percent` its whole percentage.
use job_lens.Common.{
  ℕ, ◌≡◌, ◌≢◌, Bool, true, false, ◌||◌, String, Text, codes, Option, none, some, List, [], ◌∷◌,
  ◌++◌, if◌then◌else◌, is_empty, or_try, ◌==◌, arith,
}
use job_lens.Schema.{Case, CaseProfile, FontScale}
use job_lens.Api.{Failure, fail, Fetched, unwrap}
use job_lens.Api.Decimal.{decimal}
use job_lens.Profile.{join}
use job_lens.Queries.Screen.{
  Result, IsResult, is_pending, is_error, Screen, loading, failed, content, nothing, has_status,
  has_status-unwrap,
}
use job_lens.Counselor.{display_status_text}
use job_lens.Counselor.Board.{take}

-- `text || '未填写'`.
abbrev or_unfilled : Text → Text
or_unfilled t = if is_empty t then codes "未填写" else t

abbrev on_off : Bool → Text
on_off b = if b then codes "开启" else codes "关闭"

unfoldable pub scale_text : FontScale → Text
scale_text FontScale.standard = codes "1"
scale_text FontScale.larger = codes "1.25"
scale_text FontScale.largest = codes "1.5"

pub record ProfileView : Type 0 where
  pub name : Text
  pub number : Text
  pub sensory : Text
  pub communication : Text
  pub notes : Text
  pub settings : List Text
  pub sop_link : Text

abbrev pub missing_case : Text
missing_case = codes "此个案不存在或您无权访问"

module _ {V : Type 0} (percent : V → ℕ) where
  -- `ProfileView`.
  unfoldable pub profile_view : Text → CaseProfile V → ProfileView
  unfolding join take scale_text decimal
  profile_view case_id p = record {
    name = or_unfilled p.display_name;
    number = take 8 p.user_id;
    sensory = if is_empty p.sensory_preferences then codes "未填写" else join p.sensory_preferences;
    communication = or_unfilled p.communication_preference;
    notes = or_unfilled p.work_notes;
    settings =
        (codes "字体大小：" ++ scale_text p.preferences.font_scale ++ codes "×")
        ∷ (codes "音量：" ++ decimal (percent p.preferences.volume) ++ codes "%")
        ∷ (codes "语音播报：" ++ on_off p.preferences.speech_enabled)
        ∷ (codes "震动提示：" ++ on_off p.preferences.vibration_enabled)
        ∷ (codes "安静模式：" ++ on_off p.preferences.quiet_mode)
        ∷ [];
    sop_link = codes "/counselor/sop/" ++ case_id;
  }

  pub record CaseDetail : Type 0 where
    pub title : Text
    pub badge : Text
    pub sop_link : Text
    pub task : Option String
    pub profile : ProfileView

  failed_with : Option Failure → Screen CaseDetail
  unfolding has_status
  failed_with err =
      if has_status 404 err then failed missing_case false else failed (codes "个案信息暂不可用") true

  detail_of : Text → Option Case → Option (CaseProfile V) → Screen CaseDetail
  unfolding profile_view display_status_text
  detail_of case_id (some k) (some p) = content (record {
    title = if is_empty p.display_name then codes "未填写姓名" else p.display_name;
    badge = display_status_text k.display_status;
    sop_link = codes "/counselor/sop/" ++ case_id;
    task = k.current_task_id;
    profile = profile_view case_id p;
  })
  detail_of case_id _ _ = nothing

  -- `CaseDetail`.
  unfoldable pub case_detail : Text → Result Case → Result (CaseProfile V) → Screen CaseDetail
  unfolding failed_with detail_of has_status
  case_detail case_id kase profile =
      if is_pending kase || is_pending profile
      then loading
      else if is_error kase || is_error profile
      then failed_with (or_try kase.failure profile.failure)
      else detail_of case_id kase.content profile.content

  -- `CasePage`, with the parameter of the address.
  unfoldable pub case_page : Option Text → Result Case → Result (CaseProfile V) → Screen CaseDetail
  unfolding case_detail
  case_page none kase profile = failed (codes "缺少个案编号") false
  case_page (some id) kase profile =
      if is_empty id then failed (codes "缺少个案编号") false else case_detail id kase profile

  -- The page is never left blank, where the results are as the library documents them.
  pub case_page-ne-nothing :
      (id : Option Text) (kase : Result Case) (profile : Result (CaseProfile V))
      → IsResult kase
      → IsResult profile
      → case_page id kase profile ≢ nothing
  unfolding case_page case_detail failed_with detail_of
  case_page-ne-nothing none kase profile p q h = ground arith
  case_page-ne-nothing (some id) kase profile p q h = ground (arith, p.read, q.read)

  -- Where the read of the case has failed with an answer that `unwrap` refuses, and the read of
  -- the profile is over, the status of the answer decides the page: with 404 it says that the case
  -- does not exist or is not the counselor's, and offers no retry; with any other status it offers
  -- one.
  pub case_detail-unwrap :
      (id : Text) (answer : Fetched Case) (kase : Result Case) (profile : Result (CaseProfile V))
      {f : Failure}
      → unwrap answer ≡ fail f
      → kase.failure ≡ some f
      → is_error kase ≡ true
      → is_pending profile ≡ false
      → case_detail id kase profile ≡ (
          if answer.response.status == 404
          then failed missing_case false
          else failed (codes "个案信息暂不可用") true)
  unfolding case_detail failed_with
  case_detail-unwrap id answer kase profile e k h w = ground (arith, has_status-unwrap 404 answer e)
