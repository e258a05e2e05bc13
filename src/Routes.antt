-- ===== src/Routes.antt =====
-- The command routes of src/app/api: what they share, their handlers in the child modules, and their
-- dispatch by src/server/actions/reauthentication-replay.ts. A reply has the calls of the backend
-- behind the command's read of the session context (fetch_context of the World), in their order. What the platform does with decimals and dates, and what the backend answers, is Services.
pub mod Imports
pub mod Memory
pub mod Settings
pub mod Repositories
pub mod Policy
pub mod Dispatch
pub mod Sending
pub mod Laws
pub mod Handled
pub mod Carried
pub mod Paused
pub mod Replayable
use evirion_engineering_memo.Prelude.{
  ℕ, Bool, true, false, ◌||◌, ◌&&◌, not, List, [], ◌∷◌, Option, none, some, Text, codes, text_eq,
  length, leb, ◌==◌, all, is_digit, split_last, if◌then◌else◌,
}
use evirion_engineering_memo.ConsoleApi.{ConsoleResult}
use evirion_engineering_memo.Reauth.State.{PendingDraft}
use evirion_engineering_memo.Adapters.{Call}
use evirion_engineering_memo.Commands.{
  World, Context, Response, Scope, Outcome, ready, rejected, crashed, guard_freshness,
}

-- A finite double that is a number of a form: its comparisons and `toFixed`.
pub record Amount : Type 0 where
  pub positive : Bool
  pub above : ℕ → Bool
  pub to_fixed : ℕ → Text

-- A profile of the catalogue.
pub record Profile : Type 0 where
  pub canonical_identifier : Text
  pub availability : Text

pub record Services : Type 0 where
  -- the receipt that a command returns, by its response code
  pub send : Call → ConsoleResult Text
  pub profiles : Call → ConsoleResult (List Profile)
  -- `Number(raw)`, where it is finite
  pub amount : Text → Option Amount
  -- `new Date(raw).toISOString()`, where the date is valid
  pub iso : Text → Option Text
  -- toISOString of this instant, with its UTC month set back
  pub months_ago : ℕ → Text

pub data Reply : Type 0 where
  replied : List Call → Response → Reply
  raised : List Call → Reply

-- What a route does with a form that it has read.
pub data Decision : Type 0 where
  refuse : Decision
  submit : Option Call → Decision

-- A call, unless building it throws.
abbrev pub submit_call : Services → (ConsoleResult Text → Response) → Option Call → Reply
submit_call api finish none = raised []
submit_call api finish (some call) = replied (call ∷ []) (finish (api.send call))

abbrev pub decide : Services → Response → (ConsoleResult Text → Response) → Decision → Reply
decide api refusal finish refuse = replied [] refusal
decide api refusal finish (submit call) = submit_call api finish call

-- `if (stale) return stale`
abbrev pub unless_stale : Option Response → Reply → Reply
unless_stale none reply = reply
unless_stale (some response) reply = replied [] response

-- `if (command.status === "rejected") return command.response`
abbrev pub run_outcome : {F : Type 0} → (Scope → F → Context → Reply) → Outcome F → Reply
run_outcome act (ready scope f context) = act scope f context
run_outcome act (rejected response) = replied [] response
run_outcome act crashed = raised []

-- /^(0|[1-9][0-9]{0,11})\.[0-9]{6}$/
abbrev pub is_whole : Text → Bool
is_whole [] = false
is_whole (c ∷ s) =
    if c == b'0' then text_eq s [] else is_digit c && (leb (length s) 11 && all is_digit s)

abbrev pub is_budget_of : Option (Text × Text) → Bool
is_budget_of none = false
is_budget_of (some (whole, fraction)) =
    is_whole whole && (length fraction == 6 && all is_digit fraction)

unfoldable pub is_budget : Text → Bool
is_budget s = is_budget_of (split_last b'.' s)

abbrev pub budget_text : Text → Option Text
budget_text fixed =
    if text_eq fixed (codes "0.000000") then none else if is_budget fixed then some fixed else none

abbrev pub budget_of : Option Amount → Option Text
budget_of none = none
budget_of (some amount) =
    if not amount.positive || amount.above 999999999999
    then none
    else budget_text (amount.to_fixed 6)

-- readApprovedBudget of imports/approve, and budgetCeiling of repositories/policy
unfoldable pub read_approved_budget : Services → Text → Option Text
read_approved_budget api raw = budget_of (api.amount raw)
