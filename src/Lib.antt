-- ===== src/Lib.antt =====
-- The web client of Job Lens (apps/web/src), a React program in which learners train on tasks and
-- counselors plan, review and support them, over an HTTP API. This library models its logic: the
-- state that the components keep between renders, the handlers that change it, the commands that they
-- send, and the rules of the shared client and cache. Markup and styles are not modelled.
--
-- Parts, and how they interact:
--   * Common: helpers. `Common.Texts` has the program's strings (lists of UTF-16 code units, with
--     `trim`), `Common.Ids` ids and sets of ids, `Common.Numbers` JavaScript's finite numbers as a
--     parameter with an order, a subtraction and a division, and `min`, `max` and `clamp`.
--   * Schema: the records and enumerations of apps/web/src/shared/api/schema.d.ts in use here.
--   * Api: apps/web/src/shared/api/client.ts. A call is a `Settled` value, which the handlers of the
--     other parts take as an argument; `Api.Headers` builds the headers of commands, `Api.Decimal`
--     prints versions.
--   * Query: apps/web/src/app/query.ts. `Query.Cache` is the interface of @tanstack/react-query that
--     the client relies on, with its documented laws; `Query.Model` is a cache that meets it;
--     `Query.Expiry` is what a 401 does to cache and token.
--   * Queries: the `queries.ts` of every feature in apps/web/src/features: keys, requests, and
--     what each write does to the cache (`Queries.Effects`). `Queries.Paging` has the cursors of the
--     lists that are read page by page and the interface of the library's infinite queries,
--     `Queries.Screen` is what a page reads of a query and what it shows.
--   * Sop: apps/web/src/features/sop. `Sop.StepList` is StepList.tsx, `Sop.DraftForm` DraftForm.tsx,
--     `Sop.Page` SopPage.tsx and RevisionEditor.tsx.
--   * Training: apps/web/src/features/training. `Training.Workspace` is the learner's page
--     (TrainingPage.tsx, with `useRecordHint` in `Training.Workspace.Hints`), `Training.Counselor`
--     CounselorTaskPage.tsx, `Training.Feedback` FeedbackForm.tsx and FeedbackPage.tsx (and, in its
--     `Delivered`, what reaches the learner of a review),
--     `Training.Annotation` AnnotationEditor.tsx and apps/web/src/shared/ui/AnnotationView.tsx.
--     `Training.Rules` has the transitions and checks of apps/api/app/modules/training and the limits of
--     a feedback in apps/api/app/web/business_schemas.py, with which the pages are compared.
--   * Matching: apps/web/src/features/counselor/MatchEditor.tsx.
--   * Cases: CaseList.tsx of the same folder, with the filters of status.ts.
--   * Counselor: the other pages of that folder: `Counselor.Board` is Dashboard.tsx,
--     `Counselor.CasePage` CasePage.tsx and ProfileView.tsx, `Counselor.Elapsed` RecordsView.tsx.
--   * Learner: apps/web/src/features/learner/public.tsx, the list of tasks and, in `Learner.Records`,
--     the training records.
--   * Notices: apps/web/src/features/notifications; `Notices.Reading` is the marking as read.
--   * Support: AssistancePage.tsx, SupportPage.tsx (with `Support.Learner`) and (in `Support.Shown`)
--     CounselorSupportPage.tsx of apps/web/src/features/support, with the transitions of
--     apps/api/app/modules/support/rules.py.
--   * Platform: apps/web/src/shared/platform and apps/web/src/shared/preferences. The browser is an
--     argument.
--   * Auth: apps/web/src/features/auth/public.tsx and authApi.ts, over the cache of `Query`.
--   * Account: apps/web/src/features/auth/AccountPages.tsx, registering, asking for a
--     reset link (`Account.Forgot`) and setting a new password.
--   * Files: apps/web/src/shared/ui/AssetInput.tsx, the files of a form; `Files.Row` is one file.
--   * Profile: the forms of apps/web/src/features/profile: ProfileForm.tsx (with what its page writes
--     into the cache in `Profile.Page`), PreferencesPage.tsx (in `Profile.Preferences`, beside the
--     settings that the prompts of `Platform` read), and in `Profile.Shown` what they and
--     SettingsPage.tsx show.
--   * Shell: apps/web/src/app/WorkspaceShell.tsx, the navigation of the private pages, with its drawer
--     and the keyboard in `Shell.Drawer`; `Shell.Routes` has the routes of routes.generated.ts and the
--     gates that App.tsx puts in front of them, those of `Auth`.
--   * Companions: companionMotion.ts, Companions.tsx and Buddy.tsx of apps/web/src/shared/ui.
--   * Landing: LandingPage.tsx and StatusPage.tsx of apps/web/src/app.
--   * Boundaries: apps/web/tools/check-boundaries.mjs, which checks what a source file imports.
--
-- Conventions. A handler is a function of the state; an asynchronous one takes the answers of its
-- calls (or the server as a function) and gives the state after they settled, with the commands that
-- it sent where these matter, the last one first. A disabled or missing button gives `none`, or
-- leaves the state and sends nothing, where the handler sends commands; where neither stands in a
-- handler, the test of the button is a definition beside it. What happens between handlers
-- (refetches, edits, failures) is a step relation where a property needs it. Ids of
-- `crypto.randomUUID` are arguments. Loops run over lists; the one that does not prints a number
-- (`Api.Decimal`) on fuel above it, which `value-decimal` shows to be enough; natural numbers stand
-- for versions, positions and counts, and the two places that take other JavaScript numbers
-- (`commandHeaders` and the weeks of MatchEditor.tsx) have types of their own.
--
-- What a page shows is a record of the texts, flags and rows that depend on its data; the texts of dates
-- are left to the browser.
--
-- Not modelled: drawings and fixed markup, the matching of paths by the router, the copies of components in
-- native/joblens/design, and the API server beyond the rules named above, which is a program of its own.
pub mod Common
pub mod Schema
pub mod Api
pub mod Query
pub mod Sop
pub mod Training
pub mod Queries
pub mod Matching
pub mod Support
pub mod Platform
pub mod Auth
pub mod Files
pub mod Account
pub mod Profile
pub mod Cases
pub mod Shell
pub mod Companions
pub mod Learner
pub mod Counselor
pub mod Notices
pub mod Landing
pub mod Boundaries
