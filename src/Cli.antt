-- ===== src/Cli.antt =====
-- packages/cli/src/index.ts, over the handlers of packages/application/src.
pub mod Render
pub mod Printed
pub mod Parse
pub mod Run
use es_ts_example.Common.{
  ℕ, zero, suc, Bool, true, false, not, ◌||◌, Option, none, some, List, [], ◌∷◌, String, ◌==◌,
  if◌then◌else◌, rec_get,
}
use es_ts_example.Effect
use es_ts_example.Effect.{Effect, succeed, ◌>>=◌}
use es_ts_example.Application.Counter.{CounterSummary, CounterCommandReceipt, CounterCommandClient}
use es_ts_example.Application.User.{UserCommand, ArticleRead, UserBookmarkReceipt}
use es_ts_example.Cli.Render.{
  usage, render_receipt, render_list, render_article_list, render_bookmark_receipt,
}

pub data CommandVerb : Type 0 where
  create_verb increment_verb decrement_verb disable_verb : CommandVerb

pub data CliAction : Type 0 where
  command : CommandVerb → String → CliAction
  list : CliAction
  -- a user and an article
  toggle_bookmark : String → String → CliAction
  list_articles : String → CliAction
  help : String → CliAction

abbrev pub verbs_by_argument : List (String × CommandVerb)
verbs_by_argument =
    ("create", create_verb)
    ∷ ("increment", increment_verb)
    ∷ ("decrement", decrement_verb)
    ∷ ("disable", disable_verb)
    ∷ []

unfoldable pub help_action : CliAction
unfolding usage
help_action = help usage

unfoldable pub is_non_empty : Option String → Bool
is_non_empty none = false
is_non_empty (some value) = not (value == "")

-- An argument that `is_non_empty` let through.
abbrev pub value_of : Option String → String
value_of none = ""
value_of (some value) = value

unfoldable pub command_action : CommandVerb → Option String → CliAction
unfolding is_non_empty
command_action verb raw_id =
    if not (is_non_empty raw_id) then help_action else command verb (value_of raw_id)

unfoldable pub toggle_bookmark_action : Option String → Option String → CliAction
unfolding is_non_empty
toggle_bookmark_action raw_user_id raw_article_id =
    if not (is_non_empty raw_user_id) || not (is_non_empty raw_article_id)
    then help_action
    else toggle_bookmark (value_of raw_user_id) (value_of raw_article_id)

unfoldable pub list_articles_action : Option String → CliAction
unfolding is_non_empty
list_articles_action raw_user_id =
    if not (is_non_empty raw_user_id) then help_action else list_articles (value_of raw_user_id)

-- An element of `argv`, or `undefined`.
abbrev pub argument : List String → ℕ → Option String
argument [] n = none
argument (a ∷ argv) zero = some a
argument (a ∷ argv) (suc n) = argument argv n

-- `Option.match` on the verb that the table gives.
unfoldable pub resolved_action : Option CommandVerb → Option String → CliAction
unfolding command_action
resolved_action none raw_id = help_action
resolved_action (some resolved) raw_id = command_action resolved raw_id

-- The last lines of `parseArguments`, for a verb that is none of the three others.
unfoldable pub counter_action : Option String → Option String → CliAction
unfolding resolved_action rec_get
counter_action none raw_id = help_action
counter_action (some name) raw_id = resolved_action (rec_get verbs_by_argument name) raw_id

-- `verb === text`, where the verb may be `undefined`.
abbrev pub verb_is : Option String → String → Bool
verb_is none text = false
verb_is (some verb) text = verb == text

unfoldable pub parse_arguments : List String → CliAction
unfolding toggle_bookmark_action list_articles_action counter_action
parse_arguments argv =
    let verb = argument argv 0 in
    let raw_id = argument argv 1 in
    let raw_article_id = argument argv 2 in
    if verb_is verb "list"
    then list
    else if verb_is verb "bookmark"
    then toggle_bookmark_action raw_id raw_article_id
    else if verb_is verb "articles"
    then list_articles_action raw_id
    else counter_action verb raw_id

-- The clients that the application provides; `E` is the union of their errors.
pub record Clients (S E : Type 0) : Type 0 where
  pub counter_commands : CounterCommandClient S E
  pub list_counters : Effect S E (List CounterSummary)
  pub toggle_article_bookmark : UserCommand → Effect S E UserBookmarkReceipt
  pub list_articles : String → Effect S E (List ArticleRead)

module _ {S E : Type 0} where
  unfoldable pub send_counter_command :
      CounterCommandClient S E → CommandVerb → String → Effect S E CounterCommandReceipt
  send_counter_command commands create_verb counter_id = commands.create_counter counter_id
  send_counter_command commands increment_verb counter_id = commands.increment_counter counter_id
  send_counter_command commands decrement_verb counter_id = commands.decrement_counter counter_id
  send_counter_command commands disable_verb counter_id = commands.disable_counter counter_id

  module _ (clients : Clients S E) where
    unfoldable pub list_lines : Effect S E (List String)
    unfolding render_list
    list_lines = do counters ← clients.list_counters; succeed (render_list counters)

    unfoldable pub command_lines : CommandVerb → String → Effect S E (List String)
    unfolding send_counter_command list_lines
    command_lines verb counter_id = do
      receipt ← send_counter_command clients.counter_commands verb counter_id
      listing ← list_lines
      succeed (render_receipt receipt ∷ listing)

    unfoldable pub article_lines : String → Effect S E (List String)
    unfolding render_article_list
    article_lines user_id = do
      articles ← clients.list_articles user_id
      succeed (render_article_list articles)

    unfoldable pub bookmark_lines : String → String → Effect S E (List String)
    unfolding article_lines
    bookmark_lines user_id article_id = do
      receipt ←
          clients.toggle_article_bookmark (record { user_id = user_id; article_id = article_id })
      listing ← article_lines user_id
      succeed (render_bookmark_receipt receipt ∷ listing)

    -- `executeAction` with `executeNonHelpAction`.
    unfoldable pub execute_action : CliAction → Effect S E (List String)
    unfolding list_lines command_lines article_lines bookmark_lines
    execute_action (help message) = succeed (message ∷ [])
    execute_action list = list_lines
    execute_action (list_articles user_id) = article_lines user_id
    execute_action (toggle_bookmark user_id article_id) = bookmark_lines user_id article_id
    execute_action (command verb counter_id) = command_lines verb counter_id
