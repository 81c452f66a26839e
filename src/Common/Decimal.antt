-- ===== src/Common/Decimal.antt =====
-- `${n}` for a natural number: its decimal digits. A reader of the leading digits shows that the
-- digits before a character that is no digit can be told apart from what follows.
use Prim.Native.Nat.{ℕ, zero, suc, ◌+◌, ◌-◌, ◌*◌, ◌/◌, ◌%◌, ◌<◌}
use Prim.Native.Char.{Char, code}
use Prim.Native.String.{String, [], ◌∷◌, ◌++◌}
use mathlib.Core.Bool.{Bool, true, false, ◌&&◌}
use mathlib.Core.Logic.{dite}
use mathlib.Core.Path.{◌≡◌, refl, ap}
use mathlib.Core.WellFounded.{Acc, WellFounded}
use native.Mathlib.Decide.{dec_lt}
use native.Mathlib.Omega.{arith}
use text.Mathlib.TextLemmas.{nil-append, cons-append, tail-eq_of_cons-eq}
use es_ts_example.Common.Tests.{leb, if◌then◌else◌}

Acc-below : (k n : ℕ) → n < k → Acc ◌<◌ n
Acc-below zero n h = elim h [ ]
Acc-below (suc k) n h = Acc.intro n (λ m hm. Acc-below k m (omega arith))

lt_wf : WellFounded ◌<◌
unfolding Acc-below
lt_wf = record { apply = λ n. Acc-below (suc n) n (omega arith) }

pub tenth_lt : {n : ℕ} → 9 < n → n / 10 < n
tenth_lt h = omega arith

-- The character of a digit; a larger number has that of 9.
digit : ℕ → Char
digit zero = "0"
digit (suc zero) = "1"
digit (suc (suc zero)) = "2"
digit (suc (suc (suc zero))) = "3"
digit (suc (suc (suc (suc zero)))) = "4"
digit (suc (suc (suc (suc (suc zero))))) = "5"
digit (suc (suc (suc (suc (suc (suc zero)))))) = "6"
digit (suc (suc (suc (suc (suc (suc (suc zero))))))) = "7"
digit (suc (suc (suc (suc (suc (suc (suc (suc zero)))))))) = "8"
digit _ = "9"

code-digit : (n : ℕ) → n < 10 → code (digit n) ≡ 48 + n
unfolding digit
code-digit zero h = refl
code-digit (suc zero) h = refl
code-digit (suc (suc zero)) h = refl
code-digit (suc (suc (suc zero))) h = refl
code-digit (suc (suc (suc (suc zero)))) h = refl
code-digit (suc (suc (suc (suc (suc zero))))) h = refl
code-digit (suc (suc (suc (suc (suc (suc zero)))))) h = refl
code-digit (suc (suc (suc (suc (suc (suc (suc zero))))))) h = refl
code-digit (suc (suc (suc (suc (suc (suc (suc (suc zero)))))))) h = refl
code-digit (suc (suc (suc (suc (suc (suc (suc (suc (suc zero))))))))) h = refl
code-digit (suc (suc (suc (suc (suc (suc (suc (suc (suc (suc n)))))))))) h = absurd (omega arith)

emit : (n : ℕ) → Acc ◌<◌ n → String → String
emit n (Acc.intro _ smaller) out =
    let longer = digit (n % 10) ∷ out in
    dite (dec_lt 9 n) (λ h. emit (n / 10) (smaller (n / 10) (tenth_lt h)) longer) (λ _. longer)

-- `${n}`
unfoldable pub show : ℕ → String
unfolding emit lt_wf dec_lt digit
show n = emit n (lt_wf.apply n) []

unfoldable pub is_digit : Char → Bool
is_digit c = leb 48 (code c) && leb (code c) 57

-- The number that the leading digits write, and the text from the first other character on.
leading : ℕ → String → ℕ
leading acc [] = acc
leading acc (c ∷ s) =
    let next = leading (acc * 10 + (code c - 48)) s in if is_digit c then next else acc

following : String → String
following [] = []
following (c ∷ s) = let next = following s in if is_digit c then next else c ∷ s

is_digit_of_code : (c : Char) (n : ℕ) → n < 10 → code c ≡ 48 + n → is_digit c ≡ true
unfolding is_digit
is_digit_of_code c n h e = ground arith

module _ (n : ℕ) (s : String) (h : n < 10) where
  leading-digit : (acc : ℕ) → leading acc (digit n ∷ s) ≡ leading (acc * 10 + n) s
  unfolding leading
  leading-digit acc =
      let e : code (digit n) - 48 ≡ n = omega (arith, code-digit n h) in
      rw (is_digit_of_code (digit n) n h (code-digit n h), e)

  following-digit : following (digit n ∷ s) ≡ following s
  unfolding following
  following-digit = rw (is_digit_of_code (digit n) n h (code-digit n h))

-- What the loop of `show` writes is read back, and it writes in front of what is there.
leading-emit : (n : ℕ) (w : Acc ◌<◌ n) (out : String) → leading 0 (emit n w out) ≡ leading n out
unfolding emit
leading-emit n (Acc.intro _ smaller) out = grind (
  arith,
  leading-digit,
  λ (p : 9 < n). leading-emit (n / 10) (smaller (n / 10) (tenth_lt p)) (digit (n % 10) ∷ out),
)

following-emit : (n : ℕ) (w : Acc ◌<◌ n) (out : String) → following (emit n w out) ≡ following out
unfolding emit
following-emit n (Acc.intro _ smaller) out = grind (
  arith,
  following-digit,
  λ (p : 9 < n). following-emit (n / 10) (smaller (n / 10) (tenth_lt p)) (digit (n % 10) ∷ out),
)

emit-append :
    (n : ℕ) (w : Acc ◌<◌ n) (out rest : String) → emit n w out ++ rest ≡ emit n w (out ++ rest)
unfolding emit
emit-append n (Acc.intro _ smaller) out rest = grind (
  arith,
  cons-append,
  λ (p : 9 < n). emit-append (n / 10) (smaller (n / 10) (tenth_lt p)) (digit (n % 10) ∷ out) rest,
)

-- The number and the rest can be read off a text that goes on with a character that is no digit.
module _ (n : ℕ) (c : Char) (s : String) (mark : is_digit c ≡ false) where
  leading-show : leading 0 (show n ++ c ∷ s) ≡ n
  unfolding show leading
  leading-show =
      rw (emit-append n (lt_wf.apply n) [] (c ∷ s), nil-append)
        (rw (leading-emit n (lt_wf.apply n) (c ∷ s), mark))

  following-show : following (show n ++ c ∷ s) ≡ c ∷ s
  unfolding show following
  following-show =
      rw (emit-append n (lt_wf.apply n) [] (c ∷ s), nil-append)
        (rw (following-emit n (lt_wf.apply n) (c ∷ s), mark))

-- Numbers shown before a character that is no digit, and what follows them, are determined.
pub show-append_inj :
    (m n : ℕ) (c : Char) (s t : String)
    → is_digit c ≡ false
    → show m ++ c ∷ s ≡ show n ++ c ∷ t
    → (m ≡ n) × (s ≡ t)
show-append_inj m n c s t mark e = (
  cc (leading-show m c s mark, leading-show n c t mark, ap (leading 0) e),
  tail-eq_of_cons-eq {x = c} {y = c}
      (cc (following-show m c s mark, following-show n c t mark, ap following e)),
)

show_1206 : show 1206 ≡ "1206"
unfolding show
show_1206 = refl
