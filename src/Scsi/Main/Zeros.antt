-- ===== src/Scsi/Main/Zeros.antt =====
-- A key of zeros in `main` of agents/scsi/fence_scsi.py.
use Prim.Native.Char.{code}
use fence_agents.Base.{
  String, ◌≡◌, refl, sym, ap, ◌∙◌, subst, Bool, true, false, not, ◌&&◌, ◌||◌, arith, ◌==◌,
  string_eq, nat_eq, if◌then◌else◌,
}
use fence_agents.Dict.{get-put}
use fence_agents.Exec.{ok, pure}
use fence_agents.Exec.Rules.{bind_of_ok, run_else}
use fence_agents.State.{State, text, option, put_option}
use fence_agents.State.Entries.{HasEntry, option_of_HasEntry}
use fence_agents.Text.{lstrip_by}
use fence_agents.Failure.{fail_usage}
use fence_agents.Power.{is_text}
use fence_agents.Scsi.{Host}
use fence_agents.Scsi.Main.{
  is_filled, is_given, make_key, fill_key, refuse_zero, settle_key, trim_key,
}

abbrev pub all_zeros : String → Bool
all_zeros String.[] = true
all_zeros (String.◌∷◌ c s) = code c == b'0' && all_zeros s

lstrip_by-all_zeros : (key : String) → all_zeros key ≡ true → lstrip_by (λ c. c == b'0') key ≡ ""
unfolding lstrip_by
lstrip_by-all_zeros String.[] h = refl
lstrip_by-all_zeros (String.◌∷◌ c s) h = ground (arith, lstrip_by-all_zeros s)

module _ {W : Type 0} (host : Host W) (hexdigest : String → String) where
  is_given-ok :
      (key : String) (s : State W)
      → HasEntry "--key" (text key) s
      → (key == "") ≡ false
      → is_given host "--key" s ≡ (ok true, s)
  unfolding is_given is_filled
  is_given-ok key s entry filled = rw (entry, is_given, is_filled, filled) refl

  fill_key-ok :
      (key : String) (s : State W)
      → HasEntry "--key" (text key) s
      → (key == "") ≡ false
      → fill_key host hexdigest s ≡ (ok tt, s)
  unfolding fill_key
  fill_key-ok key s entry filled =
      bind_of_ok (is_given host "--key")
        (λ given. if given then pure tt else make_key host hexdigest) s
        (is_given-ok key s entry filled)

  refuse_zero-ok :
      (stop : Bool) (key : String) (s : State W)
      → HasEntry "--key" (text key) s
      → (key == "0") ≡ false
      → (key == "") ≡ false
      → refuse_zero host hexdigest stop s ≡ (ok tt, s)
  unfolding refuse_zero
  refuse_zero-ok stop key s entry nonzero filled =
      bind_of_ok (option "--key") _ s (option_of_HasEntry "--key" (text key) s entry)
      ∙ bind_of_ok (is_given host "--key")
          (λ filled.
            if is_text (text key) "0" || not filled
            then fail_usage "Failed: key cannot be 0" stop
            else pure tt)
          s (is_given-ok key s entry filled)
      ∙ run_else (is_text (text key) "0" || not true) (fail_usage "Failed: key cannot be 0" stop)
          (pure tt) s (rw nonzero refl)

  settle_key-ok :
      (stop : Bool) (key : String) (s : State W)
      → HasEntry "--key" (text key) s
      → (key == "0") ≡ false
      → (key == "") ≡ false
      → settle_key host hexdigest stop s ≡ (ok tt, s)
  unfolding settle_key
  settle_key-ok stop key s entry nonzero filled =
      bind_of_ok (fill_key host hexdigest) (λ _. refuse_zero host hexdigest stop) s
        (fill_key-ok key s entry filled)
      ∙ refuse_zero-ok stop key s entry nonzero filled

  trimmed :
      (key : String) (s : State W)
      → HasEntry "--key" (text key) s
      → trim_key host hexdigest s ≡ put_option "--key" (text (lstrip_by (λ c. c == b'0') key)) s
  unfolding trim_key
  trimmed key s entry =
      bind_of_ok (option "--key") _ s (option_of_HasEntry "--key" (text key) s entry)

  put-HasEntry :
      (value : String) (s : State W)
      → HasEntry "--key" (text value) (put_option "--key" (text value) s).1
  unfolding put_option
  put-HasEntry value s = rw get-put (unfold string_eq in refl)

  -- A key of several zeros passes the check that it is not 0, and is empty from then on.
  pub settle_key_zeros :
      (stop : Bool) (key : String) (s : State W)
      → HasEntry "--key" (text key) s
      → all_zeros key ≡ true
      → (key == "0") ≡ false
      → (key == "") ≡ false
      → (settle_key host hexdigest stop s ≡ (ok tt, s))
        × HasEntry "--key" (text "") (trim_key host hexdigest s).1
  settle_key_zeros stop key s entry zeros nonzero filled = (
    settle_key-ok stop key s entry nonzero filled,
    subst (HasEntry "--key" (text "")) (ap (λ x. x.1) (sym (trimmed key s entry))) (
        subst (λ value. HasEntry "--key" (text "") (put_option "--key" (text value) s).1)
          (sym (lstrip_by-all_zeros key zeros)) (put-HasEntry "" s)),
  )
