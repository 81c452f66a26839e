-- ===== src/Common/Utf16.antt =====
-- `length` of a string in JavaScript: its number of UTF-16 code units. A character beyond the basic
-- plane has two. Strings with a lone surrogate are not modelled.
use Prim.Native.Nat.{ℕ, ◌+◌, ◌≤◌}
use Prim.Native.Char.{Char, code}
use Prim.Native.String.{String, [], ◌∷◌, ◌++◌}
use mathlib.Core.Path.{◌≡◌, refl, ap}
use native.Mathlib.Omega.{arith}
use text.Mathlib.TextLemmas.{nil-append, cons-append, head-eq_of_cons-eq, tail-eq_of_cons-eq}
use es_ts_example.Common.Tests.{ltb, if◌then◌else◌}

unfoldable pub code_units : Char → ℕ
code_units c = if ltb (code c) 65536 then 1 else 2

unfoldable pub utf16_length : String → ℕ
unfolding code_units
utf16_length [] = 0
utf16_length (c ∷ s) = code_units c + utf16_length s

some_units : (c : Char) → 1 ≤ code_units c
unfolding code_units
some_units c = ground arith

-- Two beginnings of one text with as many code units are the same.
pub prefix_of_length :
    (u v s t : String) → utf16_length u ≡ utf16_length v → u ++ s ≡ v ++ t → (u ≡ v) × (s ≡ t)
unfolding utf16_length
prefix_of_length [] [] s t h e = (refl, cc (nil-append s, nil-append t, e))
prefix_of_length [] (d ∷ v) s t h e = absurd (omega (arith, some_units d))
prefix_of_length (c ∷ u) [] s t h e = absurd (omega (arith, some_units c))
prefix_of_length (c ∷ u) (d ∷ v) s t h e =
    let e' : c ∷ (u ++ s) ≡ d ∷ (v ++ t) = cc (cons-append c u s, cons-append d v t, e) in
    let same = head-eq_of_cons-eq e' in
    let (u-eq, s-eq) =
      prefix_of_length u v s t (omega (arith, h, ap code_units same)) (tail-eq_of_cons-eq e') in
    (cc (same, u-eq), s-eq)

utf16_length-append : (s t : String) → utf16_length (s ++ t) ≡ utf16_length s + utf16_length t
unfolding utf16_length
utf16_length-append [] t = omega (arith, ap utf16_length (nil-append t))
utf16_length-append (c ∷ s) t =
    omega (arith, ap utf16_length (cons-append c s t), utf16_length-append s t)

-- Two ends of one text with as many code units are the same.
pub suffix_of_length :
    (u v s t : String) → utf16_length s ≡ utf16_length t → u ++ s ≡ v ++ t → (u ≡ v) × (s ≡ t)
suffix_of_length u v s t h e =
    prefix_of_length u v s t
      (omega (arith, h, ap utf16_length e, utf16_length-append u s, utf16_length-append v t)) e
