-- ===== src/Exec.antt =====
-- Python code that changes an object and may leave by an exception, by `sys.exit`, or never. What was
-- written before it left stays written, so the state comes back in every case.
pub mod Rules
use fence_agents.Base.{ℕ, String, ◌≡◌, refl, Bool, true, false, Option, none, some, if◌then◌else◌}

-- The exceptions that lib/fencing.py.py tells apart. `SystemExit` is none of them: it is no
-- subclass of `Exception`, and has its own constructor in `Outcome`.
pub data Exception : Type 0 where
  eof timeout value_error type_error attribute_error : Exception
  pycurl_error socket_timeout key_error other_error : String → Exception

pub data Outcome {ℓ} (A : Type ℓ) : Type ℓ where
  ok : A → Outcome A
  raised : Exception → Outcome A
  -- sys.exit(n)
  exit : ℕ → Outcome A
  -- a loop ran out of the rounds that the model gives it
  diverged : Outcome A

abbrev pub Exec : Type 0 → Type 0 → Type 0
Exec S A = S → Outcome A × S

module _ {S A B : Type 0} where
  abbrev pub continue : Outcome A → (A → Exec S B) → Exec S B
  continue (ok a) f s = f a s
  continue (raised e) f s = (raised e, s)
  continue (exit n) f s = (exit n, s)
  continue diverged f s = (diverged, s)

  infixl 10 ◌>>=◌ ◌>>◌
  unfoldable pub ◌>>=◌ : Exec S A → (A → Exec S B) → Exec S B
  ◌>>=◌ m f s = let (r, s') = m s in continue r f s'

  abbrev pub ◌>>◌ : Exec S A → Exec S B → Exec S B
  m >> n = m >>= λ _. n

module _ {S A : Type 0} where
  abbrev pub pure : A → Exec S A
  pure a s = (ok a, s)

  abbrev pub raise : Exception → Exec S A
  raise e s = (raised e, s)

  abbrev pub leave : ℕ → Exec S A
  leave n s = (exit n, s)

  abbrev pub diverge : Exec S A
  diverge s = (diverged, s)

  abbrev pub gets : (S → A) → Exec S A
  gets f s = (ok (f s), s)

  abbrev pub rescue : Outcome A → (Exception → Exec S A) → Exec S A
  rescue (raised e) h s = h e s
  rescue (ok a) h s = (ok a, s)
  rescue (exit n) h s = (exit n, s)
  rescue diverged h s = (diverged, s)

  -- try: m except Exception as e: h(e)
  unfoldable pub attempt : Exec S A → (Exception → Exec S A) → Exec S A
  attempt m h s = let (r, s') = m s in rescue r h s'

abbrev pub modify : {S : Type 0} → (S → S) → Exec S (Unit {0})
modify f s = (ok tt, f s)
