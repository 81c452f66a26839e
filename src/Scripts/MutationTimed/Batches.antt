-- ===== src/Scripts/MutationTimed/Batches.antt =====
-- The batches of scripts/mutation-timed.ts: they end, and run every package once.
use Prim.Native.Char.{code}
use Prim.Native.String.{String, [], ◌∷◌}
use es_ts_example.Common.{
  ℕ, zero, suc, ◌+◌, ◌-◌, ◌*◌, ◌≤◌, ◌<◌, ◌≡◌, refl, sym, ◌∙◌, Option-cases, ap, leb, ◌&&◌,
  Bool-cases, inl, inr, Option, none, some, List, [], ◌∷◌, ◌++◌, map, take, drop, length, arith,
}
use es_ts_example.Scripts.MutationTimed.{
  is_digit, digits_from, matched_integer, positive_integer, PackageMutationResult, run_batches,
}

some_inj : {A : Type 0} {a b : A} → some a ≡ some b → a ≡ b
some_inj e = cc

take-drop : {A : Type 0} (n : ℕ) (xs : List A) → take n xs ++ drop n xs ≡ xs
take-drop zero xs = refl
take-drop (suc n) [] = refl
take-drop (suc n) (x ∷ xs) = ap (λ ys. x ∷ ys) (take-drop n xs)

pub map_append :
    {A B : Type 0} (f : A → B) (xs ys : List A) → map f (xs ++ ys) ≡ map f xs ++ map f ys
map_append f [] ys = refl
map_append f (x ∷ xs) ys = ap (λ zs. f x ∷ zs) (map_append f xs ys)

length-drop : {A : Type 0} (n : ℕ) (xs : List A) → length (drop n xs) ≤ length xs
length-drop zero xs = omega arith
length-drop (suc n) [] = omega arith
length-drop (suc n) (x ∷ xs) = omega (arith, length-drop n xs)

module _ {Number : Type 0} (run : String → PackageMutationResult Number) (concurrency : ℕ) where
  dropped_less :
      (n : ℕ) (path : String) (paths : List String)
      → 0 < n
      → length (drop n (path ∷ paths)) ≤ length paths
  dropped_less zero path paths h = absurd (omega (arith, h))
  dropped_less (suc n) path paths h = length-drop n paths

  batches_end :
      (fuel : ℕ) (paths : List String)
      → 0 < concurrency
      → length paths ≤ fuel
      → run_batches run concurrency fuel paths ≡ some (map run paths)
  unfolding run_batches
  batches_end fuel [] pos h = refl
  batches_end zero (path ∷ paths) pos h = absurd (omega (arith, h))
  batches_end (suc fuel) (path ∷ paths) pos h =
      let rest = drop concurrency (path ∷ paths) in
      rw (batches_end fuel rest pos (omega (arith, h, dropped_less concurrency path paths pos))) (
        ap some (
          sym (map_append run (take concurrency (path ∷ paths)) rest)
          ∙ ap (map run) (take-drop concurrency (path ∷ paths))))

digits_from_positive : (n m : ℕ) (s : String) → 0 < n → digits_from n s ≡ some m → 0 < m
unfolding digits_from
digits_from_positive n m [] pos h = rw (← some_inj h) pos
digits_from_positive n m (c ∷ s) pos h = elim (Bool-cases (is_digit c)) [
  | inl e ↦ digits_from_positive (n * 10 + (code c - 48)) m s (omega (arith, pos)) (rw e at h)
  | inr e ↦ let never : none ≡ some m = rw e at h in cc
]

matched_integer_positive : (value : String) (n : ℕ) → matched_integer value ≡ some n → 0 < n
unfolding matched_integer
matched_integer_positive [] n h = cc
matched_integer_positive (c ∷ s) n h = elim (Bool-cases (leb 49 (code c) && leb (code c) 57)) [
  | inl e ↦ digits_from_positive (code c - 48) n s (ground (arith, e)) (rw e at h)
  | inr e ↦ let never : none ≡ some n = rw e at h in cc
]

positive_integer_positive :
    (value : Option String) (fallback : ℕ) → 0 < fallback → 0 < positive_integer value fallback
unfolding positive_integer
positive_integer_positive none fallback pos = pos
positive_integer_positive (some value) fallback pos = elim (Option-cases (matched_integer value)) [
  | inl e ↦ rw e pos
  | inr (n, e) ↦ rw e (matched_integer_positive value n e)
]

-- Whatever the setting of the concurrency, which falls back on 1, the batches come to an end, and give the
-- result of every package once, in the order of the packages.
pub run_batches_end :
    {Number : Type 0}
    → (run : String → PackageMutationResult Number) (setting : Option String) (paths : List String)
    → run_batches run (positive_integer setting 1) (length paths) paths ≡ some (map run paths)
run_batches_end run setting paths =
    batches_end run (positive_integer setting 1) (length paths) paths
      (positive_integer_positive setting 1 (omega arith)) (omega arith)
