-- ===== src/Cli/Parse.antt =====
-- `parseArguments` of packages/cli/src/index.ts, against the lines of its usage.
use es_ts_example.Common.{
  ◌≡◌, ◌≢◌, refl, false, Bool-cases, Option, none, some, inl, inr, List, [], ◌∷◌, String, ◌==◌,
  eq_iff, str_ne, arith, rec_get,
}
use es_ts_example.Cli.{
  CommandVerb, create_verb, increment_verb, decrement_verb, disable_verb, CliAction, command, list,
  toggle_bookmark, list_articles, help, verbs_by_argument, help_action, command_action,
  toggle_bookmark_action, list_articles_action, resolved_action, counter_action, parse_arguments,
  argument, verb_is,
}
use es_ts_example.Cli.Render.{usage}

-- The ids of an action are not empty, so that no `make` of an id throws; a help shows the usage.
abbrev pub IsProper : CliAction → Type 0
IsProper (command verb counter_id) = counter_id ≢ ""
IsProper list = Unit
IsProper (toggle_bookmark user_id article_id) = (user_id ≢ "") × (article_id ≢ "")
IsProper (list_articles user_id) = user_id ≢ ""
IsProper (help message) = message ≡ usage

abbrev word : CommandVerb → String
word create_verb = "create"
word increment_verb = "increment"
word decrement_verb = "decrement"
word disable_verb = "disable"

-- The arguments that the usage gives for an action.
abbrev pub arguments_of : CliAction → List String
arguments_of (command verb counter_id) = word verb ∷ counter_id ∷ []
arguments_of list = "list" ∷ []
arguments_of (toggle_bookmark user_id article_id) = "bookmark" ∷ user_id ∷ article_id ∷ []
arguments_of (list_articles user_id) = "articles" ∷ user_id ∷ []
arguments_of (help message) = []

-- Every action whose ids are not empty is the one that its line of the usage parses to.
pub parse_arguments-arguments_of :
    (action : CliAction) → IsProper action → parse_arguments (arguments_of action) ≡ action
unfolding parse_arguments help_action
parse_arguments-arguments_of (command create_verb i) h = rw (str_ne i "" h)
parse_arguments-arguments_of (command increment_verb i) h = rw (str_ne i "" h)
parse_arguments-arguments_of (command decrement_verb i) h = rw (str_ne i "" h)
parse_arguments-arguments_of (command disable_verb i) h = rw (str_ne i "" h)
parse_arguments-arguments_of list h = refl
parse_arguments-arguments_of (toggle_bookmark u a) h = rw (str_ne u "" h.0, str_ne a "" h.1)
parse_arguments-arguments_of (list_articles u) h = rw (str_ne u "" h)
parse_arguments-arguments_of (help message) h = rw h refl

ne_of_false : (s t : String) → (s == t) ≡ false → s ≢ t
ne_of_false s t h e = ground (arith, eq_iff s t)

command_action-IsProper :
    (verb : CommandVerb) (raw : Option String) → IsProper (command_action verb raw)
unfolding command_action help_action
command_action-IsProper verb none = refl
command_action-IsProper verb (some i) = elim (Bool-cases (i == "")) [
  | inl empty ↦ rw empty refl
  | inr full ↦ rw full (ne_of_false i "" full)
]

list_articles_action-IsProper : (raw : Option String) → IsProper (list_articles_action raw)
unfolding list_articles_action help_action
list_articles_action-IsProper none = refl
list_articles_action-IsProper (some i) = elim (Bool-cases (i == "")) [
  | inl empty ↦ rw empty refl
  | inr full ↦ rw full (ne_of_false i "" full)
]

toggle_bookmark_action-IsProper :
    (user article : Option String) → IsProper (toggle_bookmark_action user article)
unfolding toggle_bookmark_action help_action
toggle_bookmark_action-IsProper none article = refl
toggle_bookmark_action-IsProper (some u) none = elim (Bool-cases (u == "")) [
  | inl empty ↦ rw empty refl
  | inr full ↦ rw full refl
]
toggle_bookmark_action-IsProper (some u) (some a) = elim (Bool-cases (u == "")) [
  | inl empty ↦ rw empty refl
  | inr full ↦ elim (Bool-cases (a == "")) [
    | inl empty ↦ rw (full, empty) refl
    | inr given ↦ rw (full, given) (ne_of_false u "" full, ne_of_false a "" given)
  ]
]

resolved_action-IsProper :
    (verb : Option CommandVerb) (raw : Option String) → IsProper (resolved_action verb raw)
unfolding resolved_action help_action
resolved_action-IsProper none raw = refl
resolved_action-IsProper (some verb) raw = command_action-IsProper verb raw

counter_action-IsProper : (verb raw : Option String) → IsProper (counter_action verb raw)
unfolding counter_action help_action
counter_action-IsProper none raw = refl
counter_action-IsProper (some name) raw =
    resolved_action-IsProper (rec_get verbs_by_argument name) raw

-- Whatever the arguments, no id of the parsed action is empty, and a help shows the usage.
pub parse_arguments-IsProper : (argv : List String) → IsProper (parse_arguments argv)
unfolding parse_arguments
parse_arguments-IsProper argv =
    let verb = argument argv 0 in
    elim (Bool-cases (verb_is verb "list")) [
      | inl e ↦ rw e tt
      | inr not_list ↦ elim (Bool-cases (verb_is verb "bookmark")) [
        | inl e ↦
            rw (not_list, e) (toggle_bookmark_action-IsProper (argument argv 1) (argument argv 2))
        | inr not_bookmark ↦ elim (Bool-cases (verb_is verb "articles")) [
          | inl e ↦ rw (not_list, not_bookmark, e) (list_articles_action-IsProper (argument argv 1))
          | inr other ↦
              rw (not_list, not_bookmark, other) (counter_action-IsProper verb (argument argv 1))
        ]
      ]
    ]
