-- ===== src/Web/Server.antt =====
-- packages/web/src/server.ts: the handlers of the routes. `HttpServerRequest` decodes what a request
-- carries; `HttpRouter` finds the handler of a request in the table of routes.
pub mod Create
pub mod Shape
pub mod Press
use es_ts_example.Common.{Option, none, some, List, [], ◌∷◌, String, ℕ}
use es_ts_example.Effect.{Effect, succeed, fail, ◌>>=◌, map_error, catch}
use es_ts_example.Application.Counter.{CounterSummary, CounterCommandClient}
use es_ts_example.Application.User.{UserCommand, UserBookmarkReceipt, ArticleRead}
use es_ts_example.Web.Html.{Html}
use es_ts_example.Web.Models.{CounterPageModel, ArticlesPageModel}
use es_ts_example.Web.Controllers.{
  post_counter_command_controller, post_create_counter_controller, post_toggle_bookmark_controller,
}
use es_ts_example.Web.Controllers.Pages.{
  GetCounterPageInput, get_counter_page_controller, get_articles_page_controller,
}
use es_ts_example.Web.Views.CounterPage.{counter_page_view}
use es_ts_example.Web.Views.ArticlesPage.{articles_page_view}

-- `Schema.Literals(["increment", "decrement", "disable"])`
pub data Verb : Type 0 where
  increment decrement disable : Verb

abbrev pub verb_name : Verb → String
verb_name increment = "increment"
verb_name decrement = "decrement"
verb_name disable = "disable"

pub record RunCounterCommandBody : Type 0 where
  pub counter_id : String
  pub verb : Verb

-- What the schemas make of a request: `none` where the decoding fails.
pub record Decoders (Request : Type 0) : Type 0 where
  pub home_query : Request → Option GetCounterPageInput
  pub articles_query : Request → Option (Option String)
  pub create_counter_body : Request → Option String
  pub run_counter_command_body : Request → Option RunCounterCommandBody
  pub toggle_bookmark_body : Request → Option String

-- `HttpServerResponse.text`, `redirect` and `file`, by their arguments; the status of a text is 200
-- where none is given.
pub data HttpResponse : Type 0 where
  text_response : String → (content_type : Option String) → (status : ℕ) → HttpResponse
  redirect_response : (location : String) → (status : ℕ) → HttpResponse
  file_response : (path content_type : String) → HttpResponse

-- The clients that the server is given: the commands and queries of the application.
pub record WebClients (S E : Type 0) : Type 0 where
  pub counter_commands : CounterCommandClient S E
  pub list_counters : Effect S E (List CounterSummary)
  pub toggle_article_bookmark : UserCommand → Effect S E UserBookmarkReceipt
  pub list_articles : String → Effect S E (List ArticleRead)

-- `renderHtml`
abbrev pub render_html : Html → String
render_html h = h.value

abbrev pub html_content_type : Option String
html_content_type = some "text/html; charset=utf-8"

unfoldable pub counter_html_page : CounterPageModel → HttpResponse
counter_html_page model =
    text_response (render_html (counter_page_view model)) html_content_type 200

unfoldable pub articles_html_page : ArticlesPageModel → HttpResponse
articles_html_page model =
    text_response (render_html (articles_page_view model)) html_content_type 200

abbrev pub redirect : String → HttpResponse
redirect location = redirect_response location 303

-- The failure of a decoding, or of what the handler calls.
pub data HandlerError (E : Type 0) : Type 0 where
  not_decoded : HandlerError E
  handler_error : E → HandlerError E

abbrev pub decoded : {S E A : Type 0} → Option A → Effect S (HandlerError E) A
decoded none = fail not_decoded
decoded (some a) = succeed a

module _ {Request S E : Type 0} (encode_uri_component trim : String → String)
    (decoders : Decoders Request) (clients : WebClients S E) (request : Request) where
  unfoldable pub counter_page : Effect S ⊥ HttpResponse
  counter_page =
      catch {E = HandlerError E} (λ _. succeed (text_response "Counter unavailable." none 500))
        (do
          input ← decoded (decoders.home_query request)
          model ← map_error handler_error (get_counter_page_controller clients.list_counters input)
          succeed (counter_html_page model))

  unfoldable pub articles_page : Effect S ⊥ HttpResponse
  articles_page =
      catch {E = HandlerError E} (λ _. succeed (text_response "Articles unavailable." none 500))
        (do
          error ← decoded (decoders.articles_query request)
          model ← map_error handler_error (get_articles_page_controller clients.list_articles error)
          succeed (articles_html_page model))

  unfoldable pub create_counter : Effect S ⊥ HttpResponse
  create_counter =
      catch {E = HandlerError ⊥} (λ _. succeed (redirect "/"))
        (do
          counter_id ← decoded (decoders.create_counter_body request)
          location ← map_error handler_error (
              post_create_counter_controller encode_uri_component trim clients.counter_commands
                counter_id)
          succeed (redirect location))

  unfoldable pub run_counter_command : Effect S ⊥ HttpResponse
  run_counter_command =
      catch {E = HandlerError ⊥} (λ _. succeed (redirect "/"))
        (do
          body ← decoded (decoders.run_counter_command_body request)
          location ← map_error handler_error (
              post_counter_command_controller encode_uri_component clients.counter_commands
                body.counter_id (verb_name body.verb))
          succeed (redirect location))

  unfoldable pub toggle_bookmark : Effect S ⊥ HttpResponse
  toggle_bookmark =
      catch {E = HandlerError ⊥} (λ _. succeed (redirect "/articles"))
        (do
          article_id ← decoded (decoders.toggle_bookmark_body request)
          location ← map_error handler_error (
              post_toggle_bookmark_controller encode_uri_component clients.toggle_article_bookmark
                article_id)
          succeed (redirect location))

pub data Method : Type 0 where
  get post : Method

-- A route: a method, a path and the handler.
pub record Route (Handler : Type 0) : Type 0 where
  pub method : Method
  pub path : String
  pub handler : Handler

module _ {Request S E : Type 0} (encode_uri_component trim : String → String)
    (decoders : Decoders Request) (clients : WebClients S E) (stylesheet_path : String) where
  -- `WebHttpApp`
  unfoldable pub web_http_app : List (Route (Request → Effect S ⊥ HttpResponse))
  web_http_app =
      record {
        method = get;
        path = "/";
        handler = counter_page encode_uri_component trim decoders clients;
      }
      ∷ record {
        method = get;
        path = "/articles";
        handler = articles_page encode_uri_component trim decoders clients;
      }
      ∷ record {
        method = post;
        path = "/actions/counter/create";
        handler = create_counter encode_uri_component trim decoders clients;
      }
      ∷ record {
        method = post;
        path = "/actions/counter/command";
        handler = run_counter_command encode_uri_component trim decoders clients;
      }
      ∷ record {
        method = post;
        path = "/actions/articles/toggle-bookmark";
        handler = toggle_bookmark encode_uri_component trim decoders clients;
      }
      ∷ record {
        method = get;
        path = "/client.css";
        handler = λ _. succeed (file_response stylesheet_path "text/css; charset=utf-8");
      }
      ∷ []
