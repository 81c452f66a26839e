-- ===== src/Effect.antt =====
-- `effect/Effect` as the program uses it: an action reads and writes the state behind the services
-- (a `Ref`, a file), and ends with a success, a typed failure or a defect (a thrown exception).

pub data Exit {ℓ κ} (E : Type ℓ) (A : Type κ) : Type (ℓ ⊔ κ) where
  success : A → Exit E A
  failure : E → Exit E A
  die : Exit E A

abbrev pub Effect {ℓ} : Type ℓ → Type ℓ → Type ℓ → Type ℓ
Effect S E A = S → Exit E A × S

module _ {ℓ} {S E A : Type ℓ} where
  abbrev pub succeed : A → Effect S E A
  succeed a s = (success a, s)

  abbrev pub fail : E → Effect S E A
  fail e s = (failure e, s)

  -- An exception thrown inside `Effect.gen`: no handler of failures sees it.
  abbrev pub throw : Effect S E A
  throw s = (die, s)

-- A `Ref` that holds the whole state: `Ref.get` and `Ref.update`.
module _ {ℓ} {S E : Type ℓ} where
  abbrev pub ref_get : Effect S E S
  ref_get s = (success s, s)

  abbrev pub ref_update : (S → S) → Effect S E (Unit {ℓ})
  ref_update f s = (success tt, f s)

module _ {ℓ} {E A B : Type ℓ} where
  abbrev map_exit : (A → B) → Exit E A → Exit E B
  map_exit f (success a) = success (f a)
  map_exit f (failure e) = failure e
  map_exit f die = die

module _ {ℓ} {E F A : Type ℓ} where
  abbrev map_exit_error : (E → F) → Exit E A → Exit F A
  map_exit_error f (success a) = success a
  map_exit_error f (failure e) = failure (f e)
  map_exit_error f die = die

module _ {ℓ} {S E A B : Type ℓ} where
  abbrev pub continue : Exit E A → (A → Effect S E B) → Effect S E B
  continue (success a) f s = f a s
  continue (failure e) f s = (failure e, s)
  continue die f s = (die, s)

  infixl 5 ◌>>=◌
  abbrev pub ◌>>=◌ : Effect S E A → (A → Effect S E B) → Effect S E B
  ◌>>=◌ m f s = continue (m s).0 f (m s).1

  -- `Effect.map`
  abbrev pub map : (A → B) → Effect S E A → Effect S E B
  map f m s = (map_exit f (m s).0, (m s).1)

module _ {ℓ} {S E B : Type ℓ} where
  infixl 5 ◌>>◌
  abbrev pub ◌>>◌ : Effect S E (Unit {ℓ}) → Effect S E B → Effect S E B
  m >> n = m >>= λ _. n

module _ {ℓ} {S E F A : Type ℓ} where
  -- `Effect.mapError`; also the widening of an error type to a union that holds it.
  abbrev pub map_error : (E → F) → Effect S E A → Effect S F A
  map_error f m s = (map_exit_error f (m s).0, (m s).1)

  abbrev recover : (E → Effect S F A) → Exit E A → Effect S F A
  recover h (success a) s = (success a, s)
  recover h (failure e) s = h e s
  recover h die s = (die, s)

  -- `Effect.catch`: a failure is handled, a defect is not.
  abbrev pub catch : (E → Effect S F A) → Effect S E A → Effect S F A
  catch h m s = recover h (m s).0 (m s).1
