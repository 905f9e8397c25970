-- ===== src/Prelude/Exec.antt =====
-- Methods that change a state and may raise: `core/exceptions.py`, and the exceptions of Python
-- that the program lets through. The message of an exception is text for a reader and is left out;
-- the class (`code` and `status_code`) is kept.
use qiankun.Prelude.{ℕ, Bool, true, false, Option, none, some, ◌≡◌, refl, subst, ◌⊎◌, inl, inr}

-- The subclasses of `AppException`, and what else can leave a method: `unexpected` is any other
-- exception, `cancelled` is `asyncio.CancelledError`. `out_of_fuel` is no exception: it marks a
-- loop of the model that was given too little fuel, and theorems rule it out.
pub data Error : Type 0 where
  app_error validation auth forbidden not_found conflict runtime_initialization : Error
  unexpected cancelled out_of_fuel : Error

-- `AppException.status_code`, and the 500 of `handle_unexpected` for every other class.
abbrev pub status_code : Error → ℕ
status_code Error.validation = 422
status_code Error.auth = 401
status_code Error.forbidden = 403
status_code Error.not_found = 404
status_code Error.conflict = 409
status_code Error.runtime_initialization = 503
status_code _ = 500

pub data Result {ℓ} (A : Type ℓ) : Type ℓ where
  ok : A → Result A
  err : Error → Result A

abbrev pub is_ok {ℓ} : {A : Type ℓ} → Result A → Bool
is_ok (ok _) = true
is_ok (err _) = false

pub Result-cases {ℓ} :
    {A : Type ℓ} (r : Result A) → ((a : A) × (r ≡ ok a)) ⊎ ((e : Error) × (r ≡ err e))
Result-cases (ok a) = inl (a, refl)
Result-cases (err e) = inr (e, refl)

abbrev pub Exec : Type 0 → Type 0 → Type 0
Exec S A = S → Result A × S

module _ {S A : Type 0} where
  abbrev pub pure : A → Exec S A
  pure a s = (ok a, s)

  abbrev pub raise : Error → Exec S A
  raise e s = (err e, s)

  abbrev pub lift : Result A → Exec S A
  lift r s = (r, s)

  abbrev pub gets : (S → A) → Exec S A
  gets f s = (ok (f s), s)

  -- `if x is None: raise e`
  abbrev pub or_raise : Option A → Error → Exec S A
  or_raise none e = raise e
  or_raise (some a) _ = pure a

  abbrev pub settle : S → Result A → S → Result A × S
  settle before (ok a) after = (ok a, after)
  settle before (err e) after = (err e, before)

  -- `async with self.uow_factory() as uow`: an exception leaves the transaction uncommitted
  -- (`UnitOfWork.__aexit__`), so nothing that the block wrote stays.
  abbrev pub transaction : Exec S A → Exec S A
  transaction m s = let (r, s') = m s in settle s r s'

module _ {S : Type 0} where
  abbrev pub modify : (S → S) → Exec S Unit
  modify f s = (ok tt, f s)

  -- `if c: raise e`
  abbrev pub raise_if : Bool → Error → Exec S Unit
  raise_if true e s = (err e, s)
  raise_if false e s = (ok tt, s)

module _ {S A B : Type 0} where
  abbrev pub continue : Result A → (A → Exec S B) → Exec S B
  continue (ok a) f s = f a s
  continue (err e) f s = (err e, s)

-- The same on results alone.
abbrev pub and_then : {A B : Type 0} → Result A → (A → Result B) → Result B
and_then (ok a) f = f a
and_then (err e) f = err e

infixl 5 ◌>>=◌ ◌>>◌
abbrev pub ◌>>=◌ : {S A B : Type 0} → Exec S A → (A → Exec S B) → Exec S B
◌>>=◌ m f s = let (r, s') = m s in continue r f s'

abbrev pub ◌>>◌ : {S A B : Type 0} → Exec S A → Exec S B → Exec S B
m >> k = m >>= λ _. k

-- What holds of the value and the state when a call ends without an exception.
abbrev pub Ensures {ℓ} : {S A : Type 0} → (A → S → Type ℓ) → Result A × S → Type ℓ
Ensures P (ok a, s) = P a s
Ensures P (err _, s) = Unit

module _ {ℓ κ} {S A B : Type 0} (Q : A → S → Type κ) (P : B → S → Type ℓ) where
  continue-Ensures :
      (r : Result A) (s : S) (f : A → Exec S B)
      → Ensures Q (r, s)
      → ((a : A) (t : S) → Q a t → Ensures P (f a t))
      → Ensures P (continue r f s)
  continue-Ensures (ok a) s f q rest = rest a s q
  continue-Ensures (err e) s f q rest = tt

  -- The rule for a sequence.
  pub >>=-Ensures :
      (m : Exec S A) (f : A → Exec S B) (s : S)
      → Ensures Q (m s)
      → ((a : A) (t : S) → Q a t → Ensures P (f a t))
      → Ensures P ((m >>= f) s)
  >>=-Ensures m f s q rest = let (r, t) = m s in continue-Ensures r t f q rest

module _ {ℓ} {S A : Type 0} (P : A → S → Type ℓ) where
  -- A pure step gives its value and leaves the state alone.
  pub lift-Ensures : (r : Result A) (s : S) → ((a : A) → r ≡ ok a → P a s) → Ensures P (lift r s)
  lift-Ensures (ok a) s h = h a refl
  lift-Ensures (err e) s h = tt

  -- What is ensured of every result holds of the result that there is.
  pub Ensures-eq-ok : (r : Result A × S) (a : A) (s : S) → Ensures P r → r ≡ (ok a, s) → P a s
  Ensures-eq-ok r a s h e = subst (Ensures P) e h

module _ {ℓ κ} {S A : Type 0} (P : A → S → Type ℓ) (Q : A → S → Type κ) where
  pub Ensures-mono :
      ((s : S) (a : A) → P a s → Q a s) → (r : Result A × S) → Ensures P r → Ensures Q r
  Ensures-mono f (ok a, s) h = f s a h
  Ensures-mono f (err e, s) h = tt

-- A call after which the state still has a property that it had before, however the call ends.
pub record Preserves {ℓ} {S A : Type 0} (P : S → Type ℓ) (c : Exec S A) (s : S) : Type ℓ where
  pub preserved : P s → P (c s).1

module _ {ℓ} {S A B : Type 0} (P : S → Type ℓ) where
  continue-preserved :
      (r : Result A) (f : A → Exec S B) (t : S)
      → P t
      → ((a : A) → P t → P (f a t).1)
      → P (continue r f t).1
  continue-preserved (ok a) f t p rest = rest a p
  continue-preserved (err e) f t p rest = p

  pub >>=-Preserves :
      (c : Exec S A) (f : A → Exec S B) (s : S)
      → Preserves P c s
      → ((a : A) → Preserves P (f a) (c s).1)
      → Preserves P (c >>= f) s
  >>=-Preserves c f s h rest =
      let (r, t) = c s in
      record { preserved = λ p. continue-preserved r f t (h.preserved p) (λ a. (rest a).preserved) }

module _ {ℓ} {S B : Type 0} (P : S → Type ℓ) where
  -- A guard of which the rest may use that it did not fire.
  pub raise_if-Preserves :
      (b : Bool) (e : Error) (c : Exec S B) (s : S)
      → (b ≡ false → Preserves P c s)
      → Preserves P (raise_if b e >> c) s
  raise_if-Preserves true e c s h = record { preserved = λ p. p }
  raise_if-Preserves false e c s h = record { preserved = (h refl).preserved }
