-- ===== src/Web/Server/Create.antt =====
-- What the route that creates a counter answers and does (createCounter of packages/web/src/server.ts).
use Prim.Native.String.{String, ◌++◌}
use es_ts_example.Common.{
  ◌≡◌, ◌≢◌, ◌↔◌, refl, ap, sym, Option, none, some, inl, inr, ◌⊎◌, str_ne, arith,
}
use es_ts_example.Common.Utf16.{code_units, utf16_length}
use es_ts_example.Effect.{Exit, success, failure, die, catch, succeed, map_error, ◌>>=◌}
use es_ts_example.Application.Counter.{CounterCommandReceipt}
use es_ts_example.Web.Controllers.{counter_home_href, post_create_counter_controller}
use es_ts_example.Web.Controllers.Laws.{one_more}
use es_ts_example.Web.Server.{
  HttpResponse, redirect_response, redirect, Decoders, WebClients, create_counter, HandlerError,
  handler_error,
}

success_inj : {a b : HttpResponse} → ◌≡◌ {A = Exit ⊥ HttpResponse} (success a) (success b) → a ≡ b
success_inj h = cc

abbrev location_of : HttpResponse → String
location_of (redirect_response location _) = location
location_of _ = ""

home_ne : (rest : String) → "/" ≢ "/" ++ "?" ++ rest
unfolding utf16_length code_units
home_ne rest e = omega (arith, ap utf16_length e, one_more "/" ("?" ++ rest), one_more "?" rest)

module _ (encode_uri_component trim : String → String) where
  home_ne_failure :
      (new_counter_id : Option String)
      → "/" ≢ counter_home_href encode_uri_component (some "command-failed") new_counter_id
  unfolding counter_home_href
  home_ne_failure none e = home_ne _ e
  home_ne_failure (some i) e = home_ne _ e

  module _ {Request S E : Type 0} (decoders : Decoders Request) (clients : WebClients S E)
      (request : Request) (s : S) where
    -- What the browser is told of an attempt to create.
    abbrev outcome : String → Exit E CounterCommandReceipt → Exit ⊥ HttpResponse
    outcome i (success r) = success (redirect "/")
    outcome i (failure e) =
        success (redirect (counter_home_href encode_uri_component (some "command-failed") (some i)))
    outcome i die = die

    outcome_iff :
        (i : String) (x : Exit E CounterCommandReceipt)
        → (outcome i x ≡ success (redirect "/")) ↔ ((r : CounterCommandReceipt) × (x ≡ success r))
    outcome_iff i (success r) = (λ _. (r, refl), λ _. refl)
    outcome_iff i (failure e) = (
      λ h. absurd (home_ne_failure (some i) (sym (ap location_of (success_inj h)))),
      λ (r, h). cc,
    )
    outcome_iff i die = (λ h. cc, λ (r, h). cc)

    outcome_of :
        (i : String) (x : Exit E CounterCommandReceipt) (t : S)
        → catch {E = HandlerError ⊥}
            (λ _. succeed (redirect "/"))
            (do
              location ← map_error handler_error (
                  catch
                    (λ (e : E).
                      succeed
                        (counter_home_href encode_uri_component (some "command-failed") (some i)))
                    (do
                      receipt ← λ _. (x, t)
                      succeed (counter_home_href encode_uri_component none none)))
              succeed (redirect location))
            s
          ≡ (outcome i x, t)
    unfolding counter_home_href
    outcome_of i (success r) t = refl
    outcome_of i (failure e) t = refl
    outcome_of i die t = refl

    abbrev answer : Exit ⊥ HttpResponse × S
    answer = create_counter encode_uri_component trim decoders clients request s

    -- A request whose body is no form of a counter is sent home, and one whose id is blank is sent home
    -- with the error: neither runs anything.
    pub create_counter_refuses :
        (decoders.create_counter_body request ≡ none)
          ⊎ ((counter_id : String) × (decoders.create_counter_body request ≡ some counter_id)
              × (trim counter_id ≡ ""))
        → ((location : String) × (answer ≡ (success (redirect location), s)))
    unfolding create_counter post_create_counter_controller
    create_counter_refuses (inl h) = rw h (_, refl)
    create_counter_refuses (inr (i, h, blank)) = rw (h, blank) (_, refl)

    -- Posting the form of a new counter, with an id that is not blank once trimmed, leaves the state that
    -- the creation of the trimmed id leaves; and the browser is sent home without an error exactly if
    -- the counter was created.
    pub create_counter_lem :
        (counter_id : String)
        → decoders.create_counter_body request ≡ some counter_id
        → trim counter_id ≢ ""
        → (answer.1 ≡ (clients.counter_commands.create_counter (trim counter_id) s).1)
          × ((answer.0 ≡ success (redirect "/")) ↔ (
              (r : CounterCommandReceipt) × ((clients.counter_commands.create_counter
                  (trim counter_id)
                  s).0
                ≡ success r)))
    unfolding create_counter post_create_counter_controller
    create_counter_lem counter_id h ne =
        let created = clients.counter_commands.create_counter (trim counter_id) s in
        rw (h, str_ne (trim counter_id) "" ne, outcome_of (trim counter_id) created.0 created.1)
          (refl, outcome_iff (trim counter_id) created.0)
