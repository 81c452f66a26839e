-- ===== src/Web/Server/Press.antt =====
-- The buttons of the counter page against the routes of packages/web/src/server.ts: what pressing one
-- does.
use es_ts_example.Common.{◌≡◌, ◌⊎◌, List, [], ◌∷◌, String, map}
use es_ts_example.Effect.{Effect, ◌>>=◌}
use es_ts_example.Application.Counter.{
  CounterCommandReceipt, CounterCommandClient, CounterSummary, active_counter_summary,
  disabled_counter_summary,
}
use es_ts_example.Web.Models.{PostFormModel, CounterActionControl}
use es_ts_example.Web.Messages.{web_i18n}
use es_ts_example.Web.Factories.CounterPage.{make_action_control}
use es_ts_example.Web.Server.{Verb, increment, decrement, disable}

abbrev pub summary_id : CounterSummary → String
summary_id (active_counter_summary i _ _) = i
summary_id (disabled_counter_summary i _ _) = i

-- The texts that a browser sends for a form: its hidden fields, in order.
abbrev pub form_fields : PostFormModel → List (String × String)
form_fields form = map (λ field. (field.name, field.value)) form.hidden_fields

abbrev pub label_of : Verb → String
label_of increment = web_i18n "counter.action.increment"
label_of decrement = web_i18n "counter.action.decrement"
label_of disable = web_i18n "counter.action.disable"

abbrev pub OneOf : {A : Type 0} → A → List A → Type 0
OneOf a [] = ⊥
OneOf a (x ∷ xs) = (a ≡ x) ⊎ OneOf a xs

-- The control of a row for a verb.
abbrev control : String → Verb → CounterActionControl
control i increment = make_action_control i ("counter.action.increment", "increment")
control i decrement = make_action_control i ("counter.action.decrement", "decrement")
control i disable = make_action_control i ("counter.action.disable", "disable")

module _ {S E : Type 0} (commands : CounterCommandClient S E) where
  -- The command that a verb stands for.
  abbrev pub command_of : Verb → String → Effect S E CounterCommandReceipt
  command_of increment = commands.increment_counter
  command_of decrement = commands.decrement_counter
  command_of disable = commands.disable_counter
