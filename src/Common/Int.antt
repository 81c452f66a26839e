-- ===== src/Common/Int.antt =====
-- The integers that JavaScript's `-` reaches below zero.
use Prim.Native.Nat.{ℕ, ◌-◌, ◌≤◌}
use mathlib.Core.Path.{◌≡◌}
use mathlib.Core.Logic.{◌≢◌, inl, inr}
use mathlib.Core.Bool.{Bool, true, false}
use native.Mathlib.Omega.{arith}
use es_ts_example.Common.Tests.{leb, nat_beq, if◌then◌else◌, Bool-cases}

-- `negsuc n` is -(n + 1).
pub data ℤ : Type 0 where
  pos : ℕ → ℤ
  negsuc : ℕ → ℤ

-- a - b
abbrev pub sub_ℕ : ℕ → ℕ → ℤ
sub_ℕ a b = if leb b a then pos (a - b) else negsuc (b - a - 1)

-- a === b
abbrev pub int_beq : ℤ → ℤ → Bool
int_beq (pos a) (pos b) = nat_beq a b
int_beq (negsuc a) (negsuc b) = nat_beq a b
int_beq (pos a) (negsuc b) = false
int_beq (negsuc a) (pos b) = false

pub int_beq_refl : (a : ℤ) → int_beq a a ≡ true
int_beq_refl (pos a) = ground arith
int_beq_refl (negsuc a) = ground arith

pub eq_of_int_beq : (a b : ℤ) → int_beq a b ≡ true → a ≡ b
eq_of_int_beq (pos a) (pos b) h = ground arith
eq_of_int_beq (negsuc a) (negsuc b) h = ground arith
eq_of_int_beq (pos a) (negsuc b) h = cc
eq_of_int_beq (negsuc a) (pos b) h = cc

pub sub_ℕ_of_le : (a b : ℕ) → b ≤ a → sub_ℕ a b ≡ pos (a - b)
sub_ℕ_of_le a b h = ground arith

pub int_beq_ne : (a b : ℤ) → a ≢ b → int_beq a b ≡ false
int_beq_ne a b h = elim (Bool-cases (int_beq a b)) [
  | inl e ↦ absurd (h (eq_of_int_beq a b e))
  | inr e ↦ e
]

pub int_beq_of_eq : (a b : ℤ) → a ≡ b → int_beq a b ≡ true
int_beq_of_eq a b h = rw h (int_beq_refl b)

pub pos_inj : {a b : ℕ} → pos a ≡ pos b → a ≡ b
pos_inj h = cc
