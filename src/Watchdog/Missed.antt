-- ===== src/Watchdog/Missed.antt =====
-- When the loop of the watchdog checks finds no key.
use Prim.Native.Nat.{suc, zero}
use fence_agents.Base.{
  ℕ, ◌+◌, String, ◌≡◌, refl, sym, ap, ◌∙◌, subst, Bool, true, false, List, [], ◌∷◌, arith, contains,
  Bool-cases, inl, inr, string_eq, if◌then◌else◌,
}
use fence_agents.Base.Int.{ℤ, pos, pos_part, ltb_ℤ, ◌+ℤ◌}
use fence_agents.Exec.{Exec, ok, pure, modify}
use fence_agents.Exec.Rules.{on_ok, pure-ok}
use fence_agents.State.{State, int_option}
use fence_agents.State.Entries.{Keeps-int_option}
use fence_agents.Watchdog.{Machine, retry_sleep, try_rounds, check_items, check_end}

module _ {W : Type 0} (machine : Machine W)
    (registration_keys : String → Exec (State W) (List String)) where
  -- This many readings of a device came one after another, with no more than a pause in between, and the
  -- key was in none of them.
  pub data Missed (dev key : String) : ℕ → State W → State W → Type 0 where
    none_left : {s : State W} → Missed dev key 0 s s
    missed :
        (paused : Bool) {left : ℕ} {keys : List String} {s t u v w : State W}
        → registration_keys dev s ≡ (ok keys, t)
        → contains keys key ≡ false
        → (if paused then retry_sleep machine else pure tt) u ≡ (ok tt, v)
        → t ≡ u
        → Missed dev key left v w
        → Missed dev key (suc left) s w

  -- The same for every device and its key, with one reading more than the number of retries
  -- says, and none where that is negative.
  pub data AllMissed : List (String × String) → State W → State W → Type 0 where
    no_items : {s : State W} → AllMissed [] s s
    item :
        {dev key : String} {items : List (String × String)} {retry : ℤ} {s t u v : State W}
        → int_option "retry" s ≡ (ok retry, t)
        → Missed dev key (pos_part (retry +ℤ pos 1)) t u
        → AllMissed items u v
        → AllMissed ((dev, key) ∷ items) s v

  int_option-same :
      (key : String) (s : State W) {n : ℤ} {t : State W} → int_option key s ≡ (ok n, t) → s ≡ t
  int_option-same key s h = (Keeps-int_option {P = λ t. s ≡ t} key).at s refl ∙ ap (λ x. x.1) h

  try_rounds-Missed :
      (dev key : String) (left round : ℕ) (s : State W) {t : State W}
      → try_rounds machine registration_keys dev key left round s ≡ (ok false, t)
      → Missed dev key left s t
  unfolding try_rounds
  try_rounds-Missed dev key zero round s h =
      subst (Missed dev key 0 s) (pure-ok false s h).1 none_left
  try_rounds-Missed dev key (suc left) round s {t} h =
      on_ok (registration_keys dev) _ s h λ keys u read h. elim (Bool-cases (contains keys key)) [
        | inl found ↦ absurd (true-ne-false (pure-ok true u (rw found at h)).0)
        | inr gone ↦ on_ok (int_option "retry") _ u (rw gone at h) λ retry v e h.
            on_ok (if ltb_ℤ (pos round) retry then retry_sleep machine else pure tt) _ v h
              λ _ w p h.
                missed (ltb_ℤ (pos round) retry) read gone p (int_option-same "retry" u e)
                  (try_rounds-Missed dev key left (round + 1) w h)
      ]
    where
      true-ne-false : true ≡ false → ⊥
      true-ne-false h = ground arith

  -- Where the loop returns without the key, every device was read once more than the number of retries
  -- says, and not at all where that is negative, and its key was in none of the readings.
  pub check_items-AllMissed :
      (items : List (String × String)) (s : State W) {t : State W}
      → check_items machine registration_keys items s ≡ (ok false, t)
      → AllMissed items s t
  unfolding check_items
  check_items-AllMissed [] s h = subst (AllMissed [] s) (pure-ok false s h).1 no_items
  check_items-AllMissed ((dev, key) ∷ items) s h = on_ok (int_option "retry") _ s h λ retry t e h.
      on_ok (try_rounds machine registration_keys dev key (pos_part (retry +ℤ pos 1)) 0) _ t h
        λ found u tried h. elim (Bool-cases found) [
          | inl yes_found ↦ absurd (true-ne-false (pure-ok true u (rw yes_found at h)).0)
          | inr not_found ↦
              item e
                (try_rounds-Missed dev key (pos_part (retry +ℤ pos 1)) 0 t (rw not_found at tried))
                (check_items-AllMissed items u (rw not_found at h))
        ]
    where
      true-ne-false : true ≡ false → ⊥
      true-ne-false h = ground arith

  -- An answer of 2 comes after a loop that found no key, and the reset if one was asked for, and nothing else.
  pub record Lost (hardreboot : Bool) (items : List (String × String)) (s t : State W)
      : Type 0 where
    pub last : State W
    pub all_missed : AllMissed items s last
    pub ended :
        t ≡ record last { world = if hardreboot then machine.reset last.world else last.world }

  end_state :
      (hardreboot : Bool) (s : State W) {one : Unit {0}} {t : State W}
      → (if hardreboot then modify (λ s. record s { world = machine.reset s.world }) else pure tt) s
        ≡ (ok one, t)
      → t ≡ record s { world = if hardreboot then machine.reset s.world else s.world }
  end_state true s h = ap (λ x. x.1) (sym h)
  end_state false s h = ap (λ x. x.1) (sym h)

  pub check_end-Lost :
      (hardreboot : Bool) (items : List (String × String)) (s : State W) {t : State W}
      → check_end machine registration_keys hardreboot items s ≡ (ok (pos 2), t)
      → Lost hardreboot items s t
  unfolding check_end
  check_end-Lost hardreboot items s {t} h =
      on_ok (check_items machine registration_keys items) _ s h λ found u e h.
        elim (Bool-cases found) [
          | inl seen ↦ absurd (zero-ne-two (pure-ok (pos 0) u (rw seen at h)).0)
          | inr lost ↦
              on_ok
                (if hardreboot
                  then modify (λ s. record s { world = machine.reset s.world })
                  else pure tt)
                (λ _. pure (pos 2)) u (rw lost at h)
                λ one v e' h'. record {
                  last = u;
                  all_missed = check_items-AllMissed items s (rw lost at e);
                  ended = sym (pure-ok (pos 2) v h').1 ∙ end_state hardreboot u e';
                }
        ]
    where
      zero-ne-two : pos 0 ≡ pos 2 → ⊥
      zero-ne-two h = ground arith
