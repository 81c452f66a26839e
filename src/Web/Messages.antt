-- ===== src/Web/Messages.antt =====
-- packages/web/src/i18n
use mathlib.Core.Option.{get_or}
use es_ts_example.Common.{List, [], ◌∷◌, String, foldl, rec_get, rec_set}

abbrev pub AnyMessages : Type 0
AnyMessages = List (String × String)

abbrev pub counter_messages : AnyMessages
counter_messages =
    ("web.document.description", "Event-sourced counters rebuilt from their event streams.")
    ∷ ("counter.documentTitle", "Counters")
    ∷ ("counter.heading", "Counters")
    ∷ ("counter.intro", "Each counter is rebuilt by replaying its stored events.")
    ∷ ("counter.create.field.label", "New counter id")
    ∷ ("counter.create.field.placeholder", "counter-1")
    ∷ ("counter.create.submit", "Create counter")
    ∷ ("counter.list.empty", "No counters yet. Create one to start an event stream.")
    ∷ ("counter.action.increment", "Increment")
    ∷ ("counter.action.decrement", "Decrement")
    ∷ ("counter.action.disable", "Disable")
    ∷ ("counter.error.missingId", "Enter a counter id before creating a counter.")
    ∷ ("counter.error.commandFailed", "That counter command could not be applied.")
    ∷ []

abbrev pub articles_messages : AnyMessages
articles_messages =
    ("articles.documentTitle", "Reading Room")
    ∷ ("articles.eyebrow", "Issue 001")
    ∷ ("articles.heading", "Reading Room")
    ∷ ("articles.intro", "A static shelf with bookmark state rebuilt from FooBar's event stream.")
    ∷ ("articles.list.empty", "The reading room is empty.")
    ∷ ("articles.bookmark.saved", "Saved")
    ∷ ("articles.bookmark.notSaved", "Not saved")
    ∷ ("articles.action.bookmark", "Bookmark")
    ∷ ("articles.action.remove", "Remove bookmark")
    ∷ ("articles.error.commandFailed", "That bookmark could not be changed.")
    ∷ []

-- `{ ...articlesMessages, ...counterMessages }`
unfoldable pub messages : AnyMessages
unfolding rec_set
messages = foldl (λ all entry. rec_set all entry.0 entry.1) articles_messages counter_messages

-- `I18n.make({ messages })._`
unfoldable pub translate : AnyMessages → String → String
unfolding rec_get
translate all id = get_or (rec_get all id) id

-- `webI18n._({ id })`
unfoldable pub web_i18n : String → String
unfolding translate messages
web_i18n id = translate messages id
