-- ===== src/Common/Ids.antt =====
-- Lists of ids: `Arr.contains`, and lists that hold no id twice.
use mathlib.Core.Path.{◌≡◌, refl}
use mathlib.Core.Bool.{Bool, true, false, not, ◌||◌}
use mathlib.Core.List.{List, [], ◌∷◌, ◌++◌}
use Prim.Native.String.{String}
use native.Mathlib.Omega.{arith}
use text.Mathlib.Text.{◌==◌}
use text.Mathlib.TextEquality.{eq_iff}
use es_ts_example.Common.Tests.{if◌then◌else◌}
use es_ts_example.Common.Lists.{filter}

-- `Arr.contains`, on ids.
unfoldable pub contains : List String → String → Bool
contains [] a = false
contains (x ∷ xs) a = x == a || contains xs a

pub contains-append :
    (xs : List String) (x a : String)
    → contains (xs ++ x ∷ []) a ≡ (if x == a then true else contains xs a)
unfolding contains
contains-append [] x a = ground arith
contains-append (y ∷ xs) x a = ground (arith, contains-append xs x a)

pub contains-filter :
    (xs : List String) (x a : String)
    → contains (filter (λ y. not (y == x)) xs) a ≡ (if x == a then false else contains xs a)
unfolding contains
contains-filter [] x a = ground arith
contains-filter (y ∷ xs) x a =
    ground (arith, contains-filter xs x a, eq_iff y x, eq_iff y a, eq_iff x a)

abbrev pub Distinct : List String → Type 0
Distinct [] = Unit
Distinct (x ∷ xs) = (contains xs x ≡ false) × Distinct xs

pub Distinct-append :
    (xs : List String) (x : String) → contains xs x ≡ false → Distinct xs → Distinct (xs ++ x ∷ [])
unfolding contains
Distinct-append [] x h d = (refl, tt)
Distinct-append (y ∷ xs) x h d = (
  ground (arith, contains-append xs x y, eq_iff y x, eq_iff x y),
  Distinct-append xs x (ground arith) d.1,
)

pub Distinct-filter :
    (xs : List String) (x : String) → Distinct xs → Distinct (filter (λ y. not (y == x)) xs)
Distinct-filter [] x d = tt
Distinct-filter (y ∷ xs) x d =
    ground (arith, contains-filter xs x y, Distinct-filter xs x d.1, eq_iff y x, eq_iff x y)
