-- ===== src/Counselor/Tests.antt =====
-- A case that the counselor may not see, and the times of records.
use job_lens.Common.{
  ◌==◌, if◌then◌else◌, arith, ℕ, ◌≡◌, refl, true, false, ◌||◌, ◌&&◌, is_some, codes, none, some, [],
}
use job_lens.Schema.{Case, CaseProfile, Dashboard}
use job_lens.Api.{Failure, api, Fetched, unwrap, request_failed, retry_message}
use job_lens.Query.Cache.{QueryStatus}
use job_lens.Queries.Paging.{Pages}
use job_lens.Queries.Screen.{Result, is_error, failed}
use job_lens.Counselor.Elapsed.{elapsed, fmt_elapsed, Reads, elapsed-Reads}
use job_lens.Counselor.Board.{dashboard, Tells, dashboard-Tells}
use job_lens.Counselor.CasePage.{case_detail, missing_case, case_detail-unwrap}

elapsed-Reads_example : Reads 3_723_456 (elapsed (some 3_723_456))
elapsed-Reads_example = elapsed-Reads 3_723_456

over_an_hour : fmt_elapsed (some 3_723_456) ≡ codes "1 小时 2 分"
unfolding fmt_elapsed elapsed
over_an_hour = refl

abbrev gone : Fetched Case
gone = record { payload = none; failure = none; response = record { status = 404 } }

abbrev not_found : Failure
not_found =
    api (record { status = 404; code = request_failed; message = retry_message; trace_id = none })

abbrev kase : Result Case
kase = record {
  status = QueryStatus.error;
  content = none;
  failure = some not_found;
  fetching = false;
}

abbrev profile : Result (CaseProfile ℕ)
profile = record {
  status = QueryStatus.error;
  content = none;
  failure = some not_found;
  fetching = false;
}

case_detail-unwrap_example :
    case_detail (λ (v : ℕ). v) (codes "c-1") kase profile
    ≡ (if 404 == 404 then failed missing_case false else failed (codes "个案信息暂不可用") true)
unfolding unwrap
case_detail-unwrap_example =
    case_detail-unwrap (λ (v : ℕ). v) (codes "c-1") gone kase profile refl refl refl refl

abbrev summary : Result Dashboard
summary = record {
  status = QueryStatus.error;
  content = some (record {
    pending_tasks = 2;
    pending_feedback = 1;
    pending_assistance = 0;
    as_of = "2026-01-01";
  });
  failure = some not_found;
  fetching = false;
}

abbrev cases : Result (Pages Case)
cases = record {
  status = QueryStatus.success;
  content = some (record { pages = []; is_error = false });
  failure = none;
  fetching = false;
}

dashboard-Tells_example :
    Tells
      (is_error summary || is_error cases)
      (is_some summary.content && is_some cases.content)
      (dashboard summary cases)
dashboard-Tells_example =
    dashboard-Tells summary cases
      (record { none_yet = λ h. absurd (ground arith); failed = λ h. refl; read = λ h k. refl })
      (record {
        none_yet = λ h. absurd (ground arith);
        failed = λ h. absurd (ground arith);
        read = λ h k. refl;
      })
