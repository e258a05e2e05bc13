-- ===== src/Routes/Imports.antt =====
-- src/app/api/imports: prepare, approve, state and retry.
use evirion_engineering_memo.Prelude.{
  Bool, true, false, ◌&&◌, List, [], ◌∷◌, ◌++◌, Option, none, some, Text, codes, text_eq, take,
  ◌==◌, ltb, is_digit, if◌then◌else◌,
}
use evirion_engineering_memo.ConsoleApi.{ConsoleResult, is_uuid}
use evirion_engineering_memo.Guard.{Form, Request}
use evirion_engineering_memo.Commands.{
  World, Scope, Context, Response, back, guard_freshness, form_text,
}
use evirion_engineering_memo.Commands.Resources.{
  CommandFields, import_path, begin_import_command, import_pending_mutation, finish_import_command,
}
use evirion_engineering_memo.Commands.Fields.{read_import_id, read_expected_status, find}
use evirion_engineering_memo.Adapters.Imports.{
  ImportFilters, create_repository_import, approve_repository_import, set_repository_import_state,
  retry_repository_import_job,
}
use evirion_engineering_memo.Routes.{
  Services, Reply, Decision, refuse, submit, decide, unless_stale, run_outcome,
  read_approved_budget,
}

-- refuseImportCommand
abbrev pub refuse_import_command : World → Text → Response
refuse_import_command w repository_id = back w (import_path repository_id) (codes "REQUEST_INVALID")

abbrev pub finish_import : World → Text → CommandFields → Context → ConsoleResult Text → Response
finish_import w path f context result =
    finish_import_command w f.id result (some (import_pending_mutation f path)) (some context)

-- What the four handlers share, over what each does with its form.
abbrev pub import_act :
    World
    → Services
    → Text
    → (Scope → CommandFields → Decision)
    → Scope
    → CommandFields
    → Context
    → Reply
import_act w api path decision scope f context =
    unless_stale (guard_freshness w context (import_pending_mutation f path)) (
      decide api (refuse_import_command w f.id) (finish_import w path f context) (decision scope f))

abbrev pub import_route :
    World → Services → Text → (Scope → CommandFields → Decision) → Request → Reply
import_route w api path decision r =
    run_outcome (import_act w api path decision) (begin_import_command w r)

-- CALENDAR_DAY: four digits, a dash, two digits, a dash and two digits.
unfoldable pub fits_day : List Bool → Text → Bool
fits_day [] [] = true
fits_day [] (c ∷ s) = false
fits_day (p ∷ ps) [] = false
fits_day (p ∷ ps) (c ∷ s) = (if p then is_digit c else c == b'-') && fits_day ps s

abbrev pub is_calendar_day : Text → Bool
is_calendar_day =
    fits_day (true ∷ true ∷ true ∷ true ∷ false ∷ true ∷ true ∷ false ∷ true ∷ true ∷ [])

abbrev pub same_day : Text → Text → Option Text → Option Text
same_day day time none = none
same_day day time (some iso) = if text_eq (take 10 iso) day then some (day ++ time) else none

-- instant; the time is behind the day: T00:00:00Z or T23:59:59Z
unfoldable pub instant : Services → Text → Text → Option Text
instant api day time =
    if is_calendar_day day then same_day day time (api.iso (day ++ codes "T00:00:00Z")) else none

-- `a > b` of texts
unfoldable pub text_gt : Text → Text → Bool
text_gt [] b = false
text_gt (x ∷ a) [] = true
text_gt (x ∷ a) (y ∷ b) = let rest = text_gt a b in if x == y then rest else ltb y x

abbrev pub window : Option Text → Option Text → Option ImportFilters
window none to = none
window (some from) none = none
window (some from) (some to) =
    if text_gt from to then none else some (record { merged_from = some from; merged_to = some to })

-- readImportFilters
unfoldable pub read_import_filters : Services → Form → Option ImportFilters
read_import_filters api form =
    if text_eq (form_text (codes "range") form) (codes "ENTIRE_HISTORY")
    then some (record { merged_from = none; merged_to = none })
    else if text_eq (form_text (codes "range") form) (codes "LAST_12_MONTHS")
    then some
        (record { merged_from = some (take 19 (api.months_ago 12) ++ codes "Z"); merged_to = none })
    else if text_eq (form_text (codes "range") form) (codes "CUSTOM")
    then window (instant api (form_text (codes "mergedFrom") form) (codes "T00:00:00Z"))
        (instant api (form_text (codes "mergedTo") form) (codes "T23:59:59Z"))
    else none

abbrev pub prepare_filters : Scope → CommandFields → Option ImportFilters → Decision
prepare_filters scope f none = refuse
prepare_filters scope f (some filters) =
    submit (create_repository_import scope f.id f.idempotency_key filters)

abbrev pub prepare_decision : Services → Scope → CommandFields → Decision
prepare_decision api scope f = prepare_filters scope f (read_import_filters api f.form)

-- POST of imports/prepare
unfoldable pub prepare : World → Services → Request → Reply
prepare w api = import_route w api (codes "/api/imports/prepare") (prepare_decision api)

abbrev pub approve_fields :
    Scope → CommandFields → Option Text → Option Text → Option Text → Decision
approve_fields scope f (some import_id) (some status) (some budget) =
    submit (approve_repository_import scope import_id f.idempotency_key status budget)
approve_fields scope f _ _ _ = refuse

abbrev pub approve_decision : Services → Scope → CommandFields → Decision
approve_decision api scope f =
    approve_fields scope f (read_import_id f.form) (read_expected_status f.form)
      (read_approved_budget api (form_text (codes "costBudgetUsd") f.form))

-- POST of imports/approve
unfoldable pub approve : World → Services → Request → Reply
approve w api = import_route w api (codes "/api/imports/approve") (approve_decision api)

-- STATES
abbrev pub import_states : List Text
import_states = codes "PAUSED" ∷ codes "RESUMED" ∷ codes "CANCELLED" ∷ []

abbrev pub state_fields : Scope → CommandFields → Option Text → Option Text → Option Text → Decision
state_fields scope f (some import_id) (some status) (some state) =
    submit (set_repository_import_state scope import_id f.idempotency_key state status)
state_fields scope f _ _ _ = refuse

abbrev pub state_decision : Scope → CommandFields → Decision
state_decision scope f =
    state_fields scope f (read_import_id f.form) (read_expected_status f.form)
      (find import_states (form_text (codes "state") f.form))

-- POST of imports/state
unfoldable pub set_state : World → Services → Request → Reply
set_state w api = import_route w api (codes "/api/imports/state") state_decision

abbrev pub retry_fields : Scope → CommandFields → Text → Option Text → Decision
retry_fields scope f job none = refuse
retry_fields scope f job (some import_id) =
    if is_uuid job
    then submit (retry_repository_import_job scope import_id f.idempotency_key job)
    else refuse

abbrev pub retry_decision : Scope → CommandFields → Decision
retry_decision scope f =
    retry_fields scope f (form_text (codes "extractionJobId") f.form) (read_import_id f.form)

-- POST of imports/retry
unfoldable pub retry : World → Services → Request → Reply
retry w api = import_route w api (codes "/api/imports/retry") retry_decision
