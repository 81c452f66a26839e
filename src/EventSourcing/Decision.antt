-- ===== src/EventSourcing/Decision.antt =====
-- packages/event-sourcing/src/decision.ts; `Result` is that of `effect/Result`.
use es_ts_example.Common.{◌≡◌}

pub data Result {ℓ κ} (A : Type ℓ) (E : Type κ) : Type (ℓ ⊔ κ) where
  succeeded : A → Result A E
  failed : E → Result A E

abbrev pub Decision {ℓ κ} : Type ℓ → Type κ → Type (ℓ ⊔ κ)
Decision Success Error = Result Success Error

abbrev pub accept {ℓ κ} : {Success : Type ℓ} {Error : Type κ} → Success → Decision Success Error
accept value = succeeded value

abbrev pub reject {ℓ κ} : {Success : Type ℓ} {Error : Type κ} → Error → Decision Success Error
reject error = failed error

pub succeeded_inj {ℓ κ} :
    {A : Type ℓ} {E : Type κ} {a b : A} → ◌≡◌ {A = Result A E} (succeeded a) (succeeded b) → a ≡ b
succeeded_inj h = cc

pub failed_inj {ℓ κ} :
    {A : Type ℓ} {E : Type κ} {a b : E} → ◌≡◌ {A = Result A E} (failed a) (failed b) → a ≡ b
failed_inj h = cc
