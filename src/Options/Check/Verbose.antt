-- ===== src/Options/Check/Verbose.antt =====
-- The verbosity that `check_input` leaves behind.
use Prim.Native.Nat.{suc, zero}
use fence_agents.Base.{
  ℕ, String, ◌≡◌, refl, ◌∙◌, subst, false, Option, none, some, [], ◌∷◌, ◌++◌, arith, ltb,
  Bool-cases, inl, inr, ◌==◌, string_eq,
}
use fence_agents.Base.Int.{ℤ, pos, negsuc, pos_part}
use fence_agents.Dict
use fence_agents.Dict.{get-put, get-remove, has-put}
use fence_agents.Exec.{Exec, ok, ◌>>=◌}
use fence_agents.Exec.Rules.{bind_of_ok}
use fence_agents.State.{State, Value, number, int_value, option, put_option, log}
use fence_agents.State.Entries.{HasEntry, option_of_HasEntry}
use fence_agents.Options.Check.{level_of, settle_level, put_level, check_verbosity}

abbrev pub verbose : String
verbose = "--verbose"

abbrev pub verbose_level : String
verbose_level = "--verbose-level"

differ : (verbose_level == verbose) ≡ false
unfolding string_eq
differ = refl

differ' : (verbose == verbose_level) ≡ false
unfolding string_eq
differ' = refl

has-remove : (d : Dict.Dict Value) (key : String) → Dict.has (Dict.remove d key) key ≡ false
unfolding Dict.has
has-remove d key = ground (arith, get-remove d key key)

put-HasEntry :
    (d : Dict.Dict Value) (key : String) (value : Value)
    → Dict.get (Dict.put d key value) key ≡ some value
put-HasEntry d key value = ground (arith, get-put d key value key)

-- The level for what `int` makes of the text that was given: a number below 0 counts as 0, and so does what
-- is no number.
abbrev pub expected_level : Option ℤ → ℕ
expected_level none = 0
expected_level (some (pos n)) = n
expected_level (some (negsuc n)) = 0

expected_at :
    (given : Option ℤ)
    → pos_part (elim given [ none ↦ negsuc 0 | some n ↦ n ]) ≡ expected_level given
expected_at none = refl
expected_at (some (pos n)) = refl
expected_at (some (negsuc n)) = refl

module _ {W : Type 0} where
  -- The level is `n`, and "--verbose" is there exactly where it is positive.
  pub record HasLevel (n : ℕ) (s : State W) : Type 0 where
    pub level : HasEntry verbose_level (number (pos n)) s
    pub verbosity : Dict.has s.options verbose ≡ ltb 0 n

  -- The action returns, and leaves such a level behind.
  abbrev Settles : ℕ → Exec (State W) (Unit {0}) → State W → Type 0
  Settles n m s = (t : State W) × (m s ≡ (ok tt, t)) × HasLevel n t

  settle_zero :
      (s : State W) → HasEntry verbose_level (number (pos 0)) s → Settles 0 (settle_level (pos 0)) s
  unfolding settle_level log Dict.has
  settle_zero s h = elim (Bool-cases (Dict.has s.options verbose)) [
    | inl e ↦ (
      record s {
        options = Dict.remove s.options verbose;
        logged =
            s.logged
            ++ "Parse error: Ignoring option 'verbose' because it conflicts with verbose_level=0"
              ∷ [];
      },
      rw e refl,
      record {
        level = get-remove s.options verbose verbose_level ∙ rw differ h;
        verbosity = has-remove s.options verbose;
      },
    )
    | inr e ↦ (s, rw e refl, record { level = h; verbosity = e })
  ]

  settle_positive :
      (n : ℕ) (s : State W)
      → HasEntry verbose_level (number (pos (suc n))) s
      → Settles (suc n) (settle_level (pos (suc n))) s
  unfolding settle_level put_option
  settle_positive n s h = (
    (put_option verbose (number (pos 1)) s).1,
    refl,
    record {
      level = get-put s.options verbose (number (pos 1)) verbose_level ∙ rw differ h;
      verbosity = has-put s.options verbose (number (pos 1)) verbose ∙ ground arith;
    },
  )

  settle :
      (n : ℕ) (s : State W)
      → HasEntry verbose_level (number (pos n)) s
      → Settles n (settle_level (pos n)) s
  settle zero s h = settle_zero s h
  settle (suc n) s h = settle_positive n s h

  settle_put :
      (level : ℤ) (s : State W) → Settles (pos_part level) (put_level level >>= settle_level) s
  unfolding put_level put_option log
  settle_put (pos n) s = settle n _ (put-HasEntry s.options verbose_level (number (pos n)))
  settle_put (negsuc n) s = settle 0 _ (put-HasEntry _ verbose_level (number (pos 0)))

  -- Where a level was given, the check of the verbosity returns. The level is the number that was
  -- given, or 0 if that is negative or no number, and "--verbose" is among the options exactly where
  -- the level is positive.
  pub check_verbosity-HasLevel :
      (value : Value) (s : State W)
      → HasEntry verbose_level value s
      → (t : State W) × (check_verbosity s ≡ (ok tt, t))
        × HasLevel (expected_level (int_value value)) t
  unfolding check_verbosity
  check_verbosity-HasLevel value s h =
      let (t, e, has) = settle_put (level_of value) s in
      (
        t,
        bind_of_ok (option verbose_level) _ s (option_of_HasEntry verbose_level value s h) ∙ e,
        subst (λ n. HasLevel n t) (expected_at (int_value value)) has,
      )
