-- ===== src/Landing.antt =====
-- apps/web/src/app/LandingPage.tsx and StatusPage.tsx: the public pages, with the lists that they walk
-- and the preview of a training that the reader steps through.
pub mod Preview
mod Tests
use job_lens.Common.{
  ℕ, ◌+◌, ◌-◌, Bool, true, false, String, Option, none, some, List, [], ◌∷◌, if◌then◌else◌,
  get_elem?, ltb, ◌==◌,
}
use job_lens.Queries.Screen.{Result, is_pending, is_error}

pub record DemoStep : Type 0 where
  pub title : String
  pub instruction : String
  pub lines : List String

-- `demoSteps`.
unfoldable pub demo_steps : List DemoStep
demo_steps =
    record {
      title = "核对文件名";
      instruction = "把文件名和清单上的名称逐项对照。";
      lines = "文件名称" ∷ "日期与编号" ∷ "对应的清单条目" ∷ [];
    }
    ∷ record {
      title = "检查清单";
      instruction = "沿着清单一项项检查，标出需要补充的内容。";
      lines = "已核对的项目" ∷ "待补充的项目" ∷ "需要询问的项目" ∷ [];
    }
    ∷ record {
      title = "整理结果";
      instruction = "整理检查结果，交给辅导员查看并获得反馈。";
      lines = "检查结果" ∷ "遇到的问题" ∷ "希望获得的帮助" ∷ [];
    }
    ∷ []

-- `journey`: a title and its text.
unfoldable pub journey : List (String × String)
journey =
    ("了解需要", "沟通方式、感官偏好与工作目标。")
    ∷ ("制定计划", "合适的任务，具体的操作步骤。")
    ∷ ("执行提交", "逐步练习，整理并提交结果。")
    ∷ ("反馈返工", "阅读建议，调整后再次练习。")
    ∷ []

-- `paces`.
unfoldable pub paces : List (String × String)
paces =
    ("不催促", "没有倒计时，也没有突然弹出的提醒。做完一步，再看下一步。")
    ∷ ("少刺激", "没有提示音，颜色克制。所有动效都可以一键暂停。")
    ∷ ("说得清", "每条指引只讲一件事，用具体的词，不用比喻。")
    ∷ ("随时求助", "卡住的时候可以直接请辅导员看一眼，不用等到交作业。")
    ∷ []

-- `paceIcons`, the paths of the icons.
unfoldable pub pace_icons : List String
pace_icons =
    "M12 7v5l3 2M21 12a9 9 0 1 1-18 0 9 9 0 0 1 18 0Z" ∷ "M4 9h3l5-4v14l-5-4H4ZM16 9l5 6M21 9l-5 6"
    ∷ "M5 8h14M5 12h10M5 16h12"
    ∷ "M8 13V6a1.5 1.5 0 0 1 3 0v5M11 11V4.5a1.5 1.5 0 0 1 3 0V11M14 11V6a1.5 1.5 0 0 1 3 0v7c0 4-2.5 7-6 7-2.5 0-4-1.5-5.5-4L4 13.5a1.5 1.5 0 0 1 2.5-1.6L8 14"
    ∷ []

-- `questions`.
unfoldable pub questions : List (String × String)
questions =
    ("融职境适合谁？", "面向需要分步工作训练的孤独症学员，以及为学员制定计划、审核训练结果的辅导员。具体训练安排由学员与辅导员共同讨论。")
    ∷ ("一次训练怎么完成？", "辅导员先了解学员情况，确认任务与操作指引。学员依次练习并提交结果，辅导员审核后给出反馈；需要调整时可以返工、重新提交。")
    ∷ ("辅导员和学员看到的内容一样吗？", "学员查看自己的计划和训练；辅导员查看已分配个案并管理指引与反馈。登录后按账号角色进入相应工作台。")
    ∷ ("这可以代替医疗或治疗服务吗？", "融职境用于工作训练与协作，不提供诊断或治疗。涉及健康或治疗的问题，请咨询具备相应资质的专业人员。")
    ∷ []

-- `JourneyVignette`: the picture beside a part of the journey.
pub data Vignette : Type 0 where
  preferences rows progress bubble : Vignette

unfoldable pub vignette : ℕ → Vignette
vignette i =
    if i == 0 then preferences else if i == 1 then rows else if i == 2 then progress else bubble

-- `StatusPage`.
pub record Status : Type 0 where
  pub loading : Bool
  pub failed : Bool
  pub connected : Bool

unfoldable pub status_page : {A : Type 0} → Result A → Status
status_page q = record {
  loading = is_pending q;
  failed = is_error q;
  connected = if is_pending q then false else if is_error q then false else true;
}
