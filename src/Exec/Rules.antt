-- ===== src/Exec/Rules.antt =====
-- What follows from the outcome of a composed action, and rules for what an action keeps.
use fence_agents.Base.{ap, arith, ◌≡◌, refl, Bool, true, false, arith, if◌then◌else◌}
use fence_agents.Exec.{
  Exception, Outcome, ok, raised, exit, diverged, Exec, continue, ◌>>=◌, pure, raise, gets,
}

module _ {S A B : Type 0} where
  continue-ok :
      (r : Outcome A) (f : A → Exec S B) (s : S) {b : B} {t : S}
      → continue r f s ≡ (ok b, t)
      → (a : A) × (r ≡ ok a) × (f a s ≡ (ok b, t))
  continue-ok (ok a) f s h = (a, refl, h)
  continue-ok (raised e) f s h = absurd (cc h)
  continue-ok (exit n) f s h = absurd (cc h)
  continue-ok diverged f s h = absurd (cc h)

  -- A block that returns has returned from its first action, and from the rest.
  pub bind-ok :
      (m : Exec S A) (f : A → Exec S B) (s : S) {b : B} {t : S}
      → (m >>= f) s ≡ (ok b, t)
      → (a : A) × (s' : S) × (m s ≡ (ok a, s')) × (f a s' ≡ (ok b, t))
  unfolding ◌>>=◌
  bind-ok m f s h =
      let (a, e, k) = continue-ok (m s).0 f (m s).1 h in (a, (m s).1, (λ i. (e i, (m s).1)), k)

  -- The same for use inside a proof: the parts are bound by the last argument.
  pub on_ok {ℓ} :
      {C : Type ℓ} (m : Exec S A) (f : A → Exec S B) (s : S) {b : B} {t : S}
      → (m >>= f) s ≡ (ok b, t)
      → ((a : A) (s' : S) → m s ≡ (ok a, s') → f a s' ≡ (ok b, t) → C)
      → C
  on_ok m f s h c = let (a, s', e, k) = bind-ok m f s h in c a s' e k

  -- The first action has returned: the block is the rest of it.
  pub bind_of_ok :
      (m : Exec S A) (f : A → Exec S B) (s : S) {a : A} {s' : S}
      → m s ≡ (ok a, s')
      → (m >>= f) s ≡ f a s'
  unfolding ◌>>=◌
  bind_of_ok m f s h = rw h

  -- The first action has left by an exception, an exit, or not at all: so does the block.
  pub bind_of_raised :
      (m : Exec S A) (f : A → Exec S B) (s : S) {e : Exception}
      → (m s).0 ≡ raised e
      → (m >>= f) s ≡ (raised e, (m s).1)
  unfolding ◌>>=◌
  bind_of_raised m f s h = rw h

module _ {S A B : Type 0} where
  continue_ends :
      (r : Outcome A) (f : A → Exec S B) (s : S)
      → (r ≡ diverged → ⊥)
      → ((a : A) → r ≡ ok a → (f a s).0 ≡ diverged → ⊥)
      → (continue r f s).0 ≡ diverged
      → ⊥
  continue_ends (ok a) f s one more h = more a refl h
  continue_ends (raised e) f s one more h = cc h
  continue_ends (exit n) f s one more h = cc h
  continue_ends diverged f s one more h = one refl

  -- A block comes to an end if its first action does, and the rest where that has returned.
  pub on_end :
      (m : Exec S A) (f : A → Exec S B) (s : S)
      → ((m s).0 ≡ diverged → ⊥)
      → ((a : A) (s' : S) → m s ≡ (ok a, s') → (f a s').0 ≡ diverged → ⊥)
      → ((m >>= f) s).0 ≡ diverged
      → ⊥
  unfolding ◌>>=◌
  on_end m f s one more h =
      continue_ends (m s).0 f (m s).1 one (λ a e d. more a (m s).1 (λ i. (e i, (m s).1)) d) h

-- The test has been decided.
module _ {S A : Type 0} where
  pub run_then : (b : Bool) (m n : Exec S A) (s : S) → b ≡ true → (if b then m else n) s ≡ m s
  run_then b m n s h = rw h refl

  pub run_else : (b : Bool) (m n : Exec S A) (s : S) → b ≡ false → (if b then m else n) s ≡ n s
  run_else b m n s h = rw h refl

pub pure-ok :
    {S A : Type 0} (a : A) (s : S) {b : A} {t : S} → pure a s ≡ (ok b, t) → (a ≡ b) × (s ≡ t)
pure-ok a s h = (ground arith, ap (λ x. x.1) h)

-- `m` keeps `P`, however it ends.
pub record Keeps {S A : Type 0} (P : S → Type 0) (m : Exec S A) : Type 0 where
  pub at : (s : S) → P s → P (m s).1

-- From a state with `P` no loop in `m` runs out of rounds.
pub record Ends {S A : Type 0} (P : S → Type 0) (m : Exec S A) : Type 0 where
  pub at : (s : S) → P s → (m s).0 ≡ diverged → ⊥

module _ {S A : Type 0} {P : S → Type 0} where
  pub Keeps-pure : (a : A) → Keeps P (pure a)
  Keeps-pure a = record { at = λ s h. h }

  pub Keeps-raise : (e : Exception) → Keeps P (raise {A = A} e)
  Keeps-raise e = record { at = λ s h. h }

  pub Keeps-gets : (f : S → A) → Keeps P (gets f)
  Keeps-gets f = record { at = λ s h. h }

  pub Keeps-if : (b : Bool) (m n : Exec S A) → Keeps P m → Keeps P n → Keeps P (if b then m else n)
  Keeps-if true m n km kn = km
  Keeps-if false m n km kn = kn

  pub Ends-if : (b : Bool) (m n : Exec S A) → Ends P m → Ends P n → Ends P (if b then m else n)
  Ends-if true m n em en = em
  Ends-if false m n em en = en

  pub Ends-pure : (a : A) → Ends P (pure a)
  Ends-pure a = record { at = λ s h e. cc }

module _ {S A B : Type 0} {P : S → Type 0} where
  continue-Keeps :
      (r : Outcome A) (f : A → Exec S B) (s : S)
      → ((a : A) → Keeps P (f a))
      → P s
      → P (continue r f s).1
  continue-Keeps (ok a) f s k h = (k a).at s h
  continue-Keeps (raised e) f s k h = h
  continue-Keeps (exit n) f s k h = h
  continue-Keeps diverged f s k h = h

  pub Keeps-bind :
      (first : Exec S A) (rest : A → Exec S B)
      → Keeps P first
      → ((a : A) → Keeps P (rest a))
      → Keeps P (first >>= rest)
  unfolding ◌>>=◌
  Keeps-bind first rest one more = record {
    at = λ s h. continue-Keeps (first s).0 rest (first s).1 more (one.at s h);
  }

  continue-Ends :
      (r : Outcome A) (f : A → Exec S B) (s : S)
      → ((a : A) → Ends P (f a))
      → P s
      → (r ≡ diverged → ⊥)
      → (continue r f s).0 ≡ diverged
      → ⊥
  continue-Ends (ok a) f s k h n = (k a).at s h
  continue-Ends (raised e) f s k h n = λ d. cc
  continue-Ends (exit m) f s k h n = λ d. cc
  continue-Ends diverged f s k h n = λ d. n refl

  pub Ends-bind :
      (m : Exec S A) (f : A → Exec S B)
      → Keeps P m
      → Ends P m
      → ((a : A) → Ends P (f a))
      → Ends P (m >>= f)
  unfolding ◌>>=◌
  Ends-bind m f km em ef = record {
    at = λ s h. continue-Ends (m s).0 f (m s).1 ef (km.at s h) (em.at s h);
  }

pub ruleset keeps_rules = (Keeps-pure, Keeps-raise, Keeps-gets, Keeps-if, Keeps-bind)
