-- ===== src/Base/Action.antt =====
-- A call of a service, with what it reads and writes (S) and its errors (E). What was written
-- before an error stays written, as each statement commits on its own.
use mathlib.Core.Path.{◌≡◌, refl, ap}
use mathlib.Core.Bool.{Bool, true, false}
use mathlib.Core.Option.{Option, none, some}
use native.Mathlib.Omega.{arith}
use bikenest.Base.Tests.{if◌then◌else◌}

pub data Outcome (E A : Type 0) : Type 0 where
  ok : A → Outcome E A
  err : E → Outcome E A

abbrev pub is_ok : {E A : Type 0} → Outcome E A → Bool
is_ok (ok _) = true
is_ok (err _) = false

abbrev pub Action : Type 0 → Type 0 → Type 0 → Type 0
Action S E A = S → Outcome E A × S

module _ {S E A : Type 0} where
  abbrev pub pure : A → Action S E A
  pure a s = (ok a, s)

  abbrev pub raise : E → Action S E A
  raise e s = (err e, s)

  abbrev pub gets : (S → A) → Action S E A
  gets f s = (ok (f s), s)

  abbrev pub or_raise : Option A → E → Action S E A
  or_raise none e = raise e
  or_raise (some a) _ = pure a

  -- A result that was computed without the state.
  abbrev pub answer : Outcome E A → Action S E A
  answer r s = (r, s)

module _ {S E A B : Type 0} where
  infixl 5 ◌>>=◌ ◌>>◌
  abbrev pub go_on : (A → Action S E B) → Outcome E A → Action S E B
  go_on f (ok a) = f a
  go_on f (err e) = raise e

  abbrev pub ◌>>=◌ : Action S E A → (A → Action S E B) → Action S E B
  ◌>>=◌ m f s = let (r, s') = m s in go_on f r s'

  abbrev pub ◌>>◌ : Action S E A → Action S E B → Action S E B
  m >> k = m >>= λ _. k

module _ {S E : Type 0} where
  abbrev pub raise_if : Bool → E → Action S E (Unit {0})
  raise_if c e s = (if c then err e else ok tt, s)

  abbrev pub modify : (S → S) → Action S E (Unit {0})
  modify f s = (ok tt, f s)

  -- A transaction: an error takes back what was written.
  abbrev pub settle : {A : Type 0} → S → Outcome E A → S → Outcome E A × S
  settle s (ok a) s' = (ok a, s')
  settle s (err e) s' = (err e, s)

  abbrev pub transaction : {A : Type 0} → Action S E A → Action S E A
  transaction m s = let (r, s') = m s in settle s r s'

  -- A property of the state that an action keeps, whether it ends well or in an error.
  abbrev pub Keeps : (S → Type 0) → {A : Type 0} → Action S E A → Type 0
  Keeps P m = (s : S) → P s → P (m s).1

module _ {S E : Type 0} (P : S → Type 0) where
  outcome_keeps :
      {A B : Type 0} (f : A → Action S E B)
      → ((a : A) → Keeps P (f a))
      → (r : Outcome E A) (s : S) → P s
      → P (go_on f r s).1
  outcome_keeps f h (ok a) s p = h a s p
  outcome_keeps f h (err e) s p = p

  pub >>=-Keeps :
      {A B : Type 0} (m : Action S E A) (f : A → Action S E B)
      → Keeps P m
      → ((a : A) → Keeps P (f a))
      → Keeps P (m >>= f)
  >>=-Keeps m f k h s p = outcome_keeps f h (m s).0 (m s).1 (k s p)

  settle_keeps : {A : Type 0} (r : Outcome E A) (s s' : S) → P s → P s' → P (settle s r s').1
  settle_keeps (ok a) s s' p q = q
  settle_keeps (err e) s s' p q = p

  pub transaction-Keeps : {A : Type 0} (m : Action S E A) → Keeps P m → Keeps P (transaction m)
  transaction-Keeps m k s p = settle_keeps (m s).0 s (m s).1 p (k s p)

  pub or_raise-Keeps : {A : Type 0} (o : Option A) (e : E) → Keeps P (or_raise o e)
  or_raise-Keeps none e s p = p
  or_raise-Keeps (some a) e s p = p

  -- What a guard leaves to its rest.
  pub guard-Keeps :
      {A : Type 0} (c : Bool) (e : E) (m : Action S E A) → Keeps P m → Keeps P (raise_if c e >> m)
  guard-Keeps true e m k s p = p
  guard-Keeps false e m k s p = k s p

-- What holds after an action, ending well or in an error, when this holds before it.
module _ {S E : Type 0} (P Q : S → Type 0) where
  abbrev pub Leads : {A : Type 0} → Action S E A → Type 0
  Leads m = (s : S) → P s → Q (m s).1

  outcome_leads :
      {A B : Type 0} (f : A → Action S E B)
      → ((s : S) → P s → Q s)
      → ((a : A) → Leads (f a))
      → (r : Outcome E A) (s : S) → P s
      → Q (go_on f r s).1
  outcome_leads f w h (ok a) s p = h a s p
  outcome_leads f w h (err e) s p = w s p

  pub >>=-Leads :
      {A B : Type 0} (m : Action S E A) (f : A → Action S E B)
      → Keeps P m
      → ((s : S) → P s → Q s)
      → ((a : A) → Leads (f a))
      → Leads (m >>= f)
  >>=-Leads m f k w h s p = outcome_leads f w h (m s).0 (m s).1 (k s p)

-- Inversion of what ends well.
module _ {S E : Type 0} where
  outcome_ok :
      {A B : Type 0} (f : A → Action S E B) (b : B) (r : Outcome E A) (s : S)
      → (go_on f r s).0 ≡ ok b
      → (a : A) × (r ≡ ok a) × ((f a s).0 ≡ ok b) × ((go_on f r s).1 ≡ (f a s).1)
  outcome_ok f b (ok a) s h = (a, refl, h, refl)
  outcome_ok f b (err e) s h = absurd (ground arith)

  pub >>=-ok :
      {A B : Type 0} (m : Action S E A) (f : A → Action S E B) (b : B) (s : S)
      → ((m >>= f) s).0 ≡ ok b
      → (a : A) × ((m s).0 ≡ ok a) × ((f a (m s).1).0 ≡ ok b) × (((m >>= f) s).1 ≡ (f a (m s).1).1)
  >>=-ok m f b s h = outcome_ok f b (m s).0 (m s).1 h

  settle_ok :
      {A : Type 0} (r : Outcome E A) (a : A) (s s' : S)
      → (settle s r s').0 ≡ ok a
      → (r ≡ ok a) × ((settle s r s').1 ≡ s')
  settle_ok (ok b) a s s' h = (h, refl)
  settle_ok (err e) a s s' h = absurd (ground arith)

  pub transaction-ok :
      {A : Type 0} (m : Action S E A) (a : A) (s : S)
      → (transaction m s).0 ≡ ok a
      → ((m s).0 ≡ ok a) × ((transaction m s).1 ≡ (m s).1)
  transaction-ok m a s h = settle_ok (m s).0 a s (m s).1 h

  pub raise_if-ok :
      (c : Bool) (e : E) (s : S) (u : Unit {0}) → (raise_if c e s).0 ≡ ok u → c ≡ false
  raise_if-ok true e s u h = absurd (ground arith)
  raise_if-ok false e s u h = refl

  pub or_raise-ok :
      {A : Type 0} (v : Option A) (e : E) (s : S) (a : A)
      → (or_raise v e s).0 ≡ ok a
      → (v ≡ some a) × ((or_raise v e s).1 ≡ s)
  or_raise-ok none e s a h = absurd (ground arith)
  or_raise-ok (some b) e s a h = (ground (arith, h), refl)

pub ok_inj : {E A : Type 0} {a b : A} → ◌≡◌ {A = Outcome E A} (ok a) (ok b) → a ≡ b
ok_inj {E} {A} {a} h = ap (value a) h
  where
    value : A → Outcome E A → A
    value d (ok x) = x
    value d (err _) = d
