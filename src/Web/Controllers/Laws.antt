-- ===== src/Web/Controllers/Laws.antt =====
-- What the redirect of a command tells (packages/web/src/controllers/postCounterCommand.controller.ts).
use Prim.Native.Char.{Char}
use Prim.Native.String.{String, [], ◌∷◌, ◌++◌}
use text.Mathlib.TextLemmas.{nil-append, cons-append}
use es_ts_example.Common.{◌+◌, ◌≡◌, ◌≢◌, ◌↔◌, refl, ap, none, some, str_ne, arith}
use es_ts_example.Common.Utf16.{code_units, utf16_length}
use es_ts_example.Effect.{Exit, success, failure, die, continue, catch, succeed}
use es_ts_example.Application.Counter.{CounterCommandReceipt, CounterCommandClient}
use es_ts_example.Web.Controllers.{
  counter_home_href, RunVerbError, run_verb, post_counter_command_controller,
}

pub one_more :
    (c : Char) (t : String) → utf16_length ((c ∷ []) ++ t) ≡ code_units c + utf16_length t
unfolding utf16_length
one_more c t = rw (cons-append c [] t, nil-append t)

module _ (encode_uri_component : String → String) where
  home_ne_failed :
      counter_home_href encode_uri_component (some "command-failed") none
      ≢ counter_home_href encode_uri_component none none
  unfolding counter_home_href utf16_length code_units
  home_ne_failed e =
      let rest : String = "error" ++ "=" ++ encode_uri_component "command-failed" in
      omega (arith, ap utf16_length e, one_more "/" ("?" ++ rest), one_more "?" rest)

  success_inj : {a b : String} → ◌≡◌ {A = Exit ⊥ String} (success a) (success b) → a ≡ b
  success_inj h = cc

  module _ {S E : Type 0} (commands : CounterCommandClient S E) where
    abbrev shown : Exit (RunVerbError E) CounterCommandReceipt → S → Exit ⊥ String
    shown x s =
        (catch (λ _. succeed (counter_home_href encode_uri_component (some "command-failed") none))
          (continue x (λ _. succeed (counter_home_href encode_uri_component none none))) s).0

    shown_iff :
        (x : Exit (RunVerbError E) CounterCommandReceipt) (s : S)
        → (shown x s ≡ success (counter_home_href encode_uri_component none none))
          ↔ ((r : CounterCommandReceipt) × (x ≡ success r))
    shown_iff (success r) s = (λ _. (r, refl), λ _. refl)
    shown_iff (failure e) s = (λ h. absurd (home_ne_failed (success_inj h)), λ (r, h). cc)
    shown_iff die s = (λ h. cc, λ (r, h). cc)

    -- For an id that is not empty, the browser is sent home without an error exactly if the command was
    -- carried out. For the empty id the controller ends in a defect, whatever the verb, and runs nothing.
    pub post_counter_command_controller_lem :
        (counter_id verb : String) (s : S)
        → (counter_id ≢ ""
            → ((post_counter_command_controller encode_uri_component commands counter_id verb s).0
                ≡ success (counter_home_href encode_uri_component none none))
              ↔ ((r : CounterCommandReceipt) × ((run_verb commands verb counter_id s).0
                    ≡ success r)))
          × (counter_id ≡ ""
              → post_counter_command_controller encode_uri_component commands counter_id verb s
                ≡ (die, s))
    unfolding post_counter_command_controller
    post_counter_command_controller_lem counter_id verb s = (
      λ ne. rw (str_ne counter_id "" ne) (
          shown_iff (run_verb commands verb counter_id s).0
            (run_verb commands verb counter_id s).1),
      λ e. rw e,
    )
