-- ===== src/Web/Controllers.antt =====
-- packages/web/src/routes.ts and the controllers of packages/web/src/controllers that run commands.
-- `encodeURIComponent` and `trim` are JavaScript's: they are parameters.
pub mod Laws
pub mod Pages
use Prim.Native.String.{String, ◌++◌}
use mathlib.Core.List
use es_ts_example.Common.{Option, none, some, List, [], ◌∷◌, ◌==◌, if◌then◌else◌}
use es_ts_example.Effect.{Effect, succeed, fail, throw, ◌>>=◌, map_error, catch}
use es_ts_example.Application.Counter.{CounterCommandReceipt, CounterCommandClient}
use es_ts_example.Application.User.{UserCommand, UserBookmarkReceipt}
use es_ts_example.Cli.Render.{join}

-- `CounterCommandError | Error`
pub data RunVerbError (E : Type 0) : Type 0 where
  command_error : E → RunVerbError E
  unknown_verb : RunVerbError E

-- `CounterId.make`, which throws on what is no id.
abbrev pub make_id : {S F : Type 0} → String → Effect S F String
make_id counter_id = if counter_id == "" then throw else succeed counter_id

-- The failure of the decoding of a text that is no id.
pub data ToggleError (E : Type 0) : Type 0 where
  toggle_error : E → ToggleError E
  no_id : ToggleError E

abbrev pub decode_article_id : {S E : Type 0} → String → Effect S (ToggleError E) String
decode_article_id article_id = if article_id == "" then fail no_id else succeed article_id

module _ {S E : Type 0} where
  unfoldable pub run_verb :
      CounterCommandClient S E → String → String → Effect S (RunVerbError E) CounterCommandReceipt
  run_verb commands verb counter_id =
      if verb == "increment"
      then map_error command_error (commands.increment_counter counter_id)
      else if verb == "decrement"
      then map_error command_error (commands.decrement_counter counter_id)
      else if verb == "disable"
      then map_error command_error (commands.disable_counter counter_id)
      else fail unknown_verb

module _ (encode_uri_component : String → String) where
  unfoldable pub query_parameter : String → Option String → List String
  query_parameter name none = []
  query_parameter name (some value) = (name ++ "=" ++ encode_uri_component value) ∷ []

  unfoldable pub href_with : List String → String
  unfolding join
  href_with [] = "/"
  href_with (parameter ∷ parameters) = "/" ++ "?" ++ join "&" (parameter ∷ parameters)

  -- `counterHomeHref`, on the error and the new id.
  unfoldable pub counter_home_href : Option String → Option String → String
  unfolding query_parameter href_with
  counter_home_href error new_counter_id =
      href_with
        (List.◌++◌ (query_parameter "error" error) (query_parameter "newCounterId" new_counter_id))

  unfoldable pub articles_href : Option String → String
  articles_href none = "/articles"
  articles_href (some error) = "/articles" ++ "?error=" ++ encode_uri_component error

  module _ {S E : Type 0} where
    unfoldable pub post_counter_command_controller :
        CounterCommandClient S E → String → String → Effect S ⊥ String
    unfolding counter_home_href
    post_counter_command_controller commands counter_id verb =
        catch (λ _. succeed (counter_home_href (some "command-failed") none))
          (do
            id ← make_id counter_id
            receipt ← run_verb commands verb id
            succeed (counter_home_href none none))

    unfoldable pub post_create_counter_controller :
        (String → String) → CounterCommandClient S E → String → Effect S ⊥ String
    unfolding counter_home_href
    post_create_counter_controller trim commands counter_id =
        let trimmed = trim counter_id in
        if trimmed == ""
        then succeed (counter_home_href (some "missing-id") none)
        else catch (λ _. succeed (counter_home_href (some "command-failed") (some trimmed)))
            (do
              id ← make_id trimmed
              receipt ← commands.create_counter id
              succeed (counter_home_href none none))

    unfoldable pub post_toggle_bookmark_controller :
        (UserCommand → Effect S E UserBookmarkReceipt) → String → Effect S ⊥ String
    unfolding articles_href
    post_toggle_bookmark_controller toggle_article_bookmark article_id =
        catch (λ _. succeed (articles_href (some "command-failed")))
          (do
            id ← decode_article_id article_id
            receipt ←
                map_error toggle_error
                  (toggle_article_bookmark (record { user_id = "FooBar"; article_id = id }))
            succeed (articles_href none))
