-- ===== src/Common/Dictionary.antt =====
-- `Record<string, A>` with `Rec.get` and `Rec.set`: the properties in the order in which they were
-- first set.
use mathlib.Core.Path.{◌≡◌, refl}
use mathlib.Core.List.{List, [], ◌∷◌}
use mathlib.Core.Option.{Option, none, some}
use Prim.Native.String.{String}
use native.Mathlib.Omega.{arith}
use text.Mathlib.Text.{◌==◌}
use text.Mathlib.TextEquality.{eq_iff}
use es_ts_example.Common.Tests.{if◌then◌else◌}

module _ {A : Type 0} where
  unfoldable pub rec_get : List (String × A) → String → Option A
  rec_get [] key = none
  rec_get ((k, a) ∷ rest) key = let other = rec_get rest key in if k == key then some a else other

  unfoldable pub rec_set : List (String × A) → String → A → List (String × A)
  rec_set [] key value = (key, value) ∷ []
  rec_set ((k, a) ∷ rest) key value =
      let other = rec_set rest key value in if k == key then (k, value) ∷ rest else (k, a) ∷ other

  pub rec_get-rec_set :
      (m : List (String × A)) (key other : String) (a : A)
      → rec_get (rec_set m key a) other ≡ (if key == other then some a else rec_get m other)
  unfolding rec_get rec_set
  rec_get-rec_set [] key other a = refl
  rec_get-rec_set ((k, c) ∷ m) key other a =
      ground (arith, rec_get-rec_set m key other a, eq_iff k key, eq_iff k other, eq_iff key other)
