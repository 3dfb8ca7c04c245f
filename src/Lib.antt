-- ===== src/Lib.antt =====
-- Google Ads Intelligence: a verification development for the Python backend under app/.
--
-- The program mirrors Google Ads accounts into a database, scores campaigns, keywords and budgets,
-- raises alerts, and serves the results to signed-in users whose access is limited to accounts.
-- Its parts, and the files that model them:
--
-- - Cache: app/utils/cache.py, TTLCache. A cache is an association list with its limits; a clock
--   reading is an argument, and the lock makes get and set one step each. get_or_set holds no lock over
--   its get, its producer and its set: it is modelled as a call that no other call interrupts, with a
--   producer that does not raise.
-- - Ops: app/config/ops_rules.py (Ops.Rules) and app/services/ops/scoring.py. Ops.Scoring has the
--   data, Ops.Health compute_campaign_health, Ops.Keyword compute_keyword_health, Ops.Budget
--   compute_budget_risk and Ops.Priority compute_priority. A formatted label is a value with one
--   constructor for each template.
-- - Sync: app/services/sync_service.py over app/repositories. Sync.Log has the log rows of
--   app/models/sync_log.py and the database session: what is committed, and what the open
--   transaction sees, so that commit and rollback are assignments. Sync.Engine is _run_entity and
--   _Aggregate; Sync.Window is bulk_insert and replace_window, Sync.Dimension is upsert of
--   app/repositories/base.py with the dimension repositories; Sync.Steps and its children are the
--   dimension steps, the snapshot steps, and those of search terms, recommendations and accounts;
--   Sync.Service is _steps_for, _resolve_target_accounts, run and backfill.
-- - Alerts: app/models/alert.py and app/repositories/alert.py (Alerts.Store), the analysis that the
--   alerts are computed from, app/services/ops/campaign_analysis.py (Alerts.Analysis), the conditions
--   of app/services/ops/alerts_service.py (Alerts.Rules) and its evaluate (Alerts.Engine).
--   Alerts.Refinement reads the table as a map from dedupe keys to alerts.
-- - Auth: app/services/auth/users.py (Auth.Users), app/services/auth/tokens.py (Auth.Tokens) and the
--   guards of app/api/deps.py (Auth.Guards).
-- - Approval: app/services/ai/approval_service.py over app/models/ad_copy.py. Approval.Strategy (with Auto and Final) is
--   build_final_strategy and kpi_status, Approval.Workflow the tables, Approval.Edits and
--   Approval.Operations the methods of ApprovalService that write, Approval.Actions runs of them, and
--   Approval.Audit what a run leaves in the event log. Approval.Effective is effective_keywords,
--   effective_assets and effective_pacing.
-- - Budgets: app/services/ops/weekly_budget_service.py (Budgets.Weekly) and
--   app/services/ops/account_budget_service.py (Budgets.Account), over the tables of
--   app/models/weekly_budget.py and app/models/account_budget.py (Budgets.Store).
-- - AdCopy: app/services/ai/rsa_validator.py (AdCopy.Validator).
--
-- The alerts are computed from the scores of Ops and from the logs of Sync. Base holds what all share:
-- lists and natural numbers, integers, dicts and tables, strings as lists of code points, and the
-- interface of the floats. Tests holds small runs and an input for each theorem that has conditions.
--
-- Numbers: counts and ids are natural numbers, dates are day numbers and times milliseconds. Python's
-- floats are a parameter, an instance of FloatOps, with the few laws that a theorem needs as the
-- record FloatLaws. Division by zero is `none` where the code would raise. No function runs on fuel:
-- every loop is a structural recursion over the list that the code goes through. The days of a weekly
-- budget are ordinals, of which the first is a Monday; those of an account budget are calendar dates.
--
-- Parameters: the fetchers of app/google_ads/reports (the record Reports), the grouped queries of
-- app/repositories/ops.py (the record OpsQueries), the clock, and for the guards the verified
-- payload of a session cookie. Base64, JSON, UTF-8 and HMAC are the record Libraries, with what is
-- documented of them as TokenLaws; the drawn tokens, the delivery of mails and `float` on a string are
-- the record Outside. A report row is the dict that a fetcher builds; the columns of a table that no operation
-- reads are carried as a dict.
--
-- The requests of Approval.Actions are those of ApprovalService. The edits of
-- app/services/ai/ad_copy_service.py, which also set the approval status back to draft and log events,
-- are not among them.
--
-- app/models/mixins.py says of the snapshot tables that historical rows are never updated or deleted.
-- replace_window, whose own docstring says that a re-run does not stack rows, deletes the rows of the
-- account in the window that it writes; Sync.Window follows the code.
--
-- Not modelled: the generation of ad copy by language models and the planners around it, the HTML of the
-- mails and the exports, the rollup of accounts, the read queries, the HTTP routes, and exceptions of
-- the database itself. The changes of case read ASCII letters only.
pub mod Base
pub mod Cache
pub mod Ops
pub mod Sync
pub mod Alerts
pub mod Auth
pub mod Approval
pub mod Budgets
pub mod AdCopy
pub mod Tests
