-- ===== src/Action/Confirm.antt =====
-- What the success of `fence_action` says of the plugs.
use fence_agents.Base.{
  ℕ, String, ◌<>◌, ◌≡◌, refl, sym, ap, ◌∙◌, subst, ◌⊎◌, inl, inr, Bool, true, not, ◌&&◌, ◌||◌,
  Option, none, some, List, arith, All, contains, Bool-cases, ◌==◌, string_eq,
}
use fence_agents.Exec.{Exec, Exception, Outcome, ok, raised, exit, diverged, rescue}
use fence_agents.Exec.Rules.{Keeps, pure-ok, on_ok, bind_of_ok}
use fence_agents.State.{State, System, Value, text, option, print}
use fence_agents.State.Entries.{HasEntry, option_of_HasEntry}
use fence_agents.Failure.{ErrorCode, fail, ec_ok, ec_status, ec_waiting_off}
use fence_agents.Text.{upper}
use fence_agents.Power.{Agent, plugs_of, get_multi_power, set_multi_power, async_set_multi_power}
use fence_agents.Power.Status.{overall-off, Reads, get_multi_power-Reads}
use fence_agents.Power.Confirm.{Confirmed, async_set_multi_power-Confirmed}
use fence_agents.Power.Entries.{IsApart, get_multi_power-Keeps, async_set_multi_power-Keeps}
use fence_agents.Action.{
  take_plugs, matches_status, read_status, already, perform, power_off, act_on, fence_action_body,
  on_exception, fence_action,
}
use fence_agents.Action.Plain.{off-IsPlain, on_plain_run}

pub action-IsApart : IsApart "--action"
unfolding string_eq
action-IsApart = record { not_uuid = refl; not_plug = refl }

pub status_of_matches :
    (status : Option String) → matches_status (text "off") status ≡ true → status ≡ some "off"
status_of_matches none h = absurd (cc)
status_of_matches (some r) h = ground arith

and-left : (a b : Bool) → (a && b) ≡ true → a ≡ true
and-left a b h = ground arith

module _ {W : Type 0} where
  -- An agent's function leaves options["--action"] as it finds it.
  abbrev pub KeepsAction : {A : Type 0} → Exec (State W) A → Type 0
  KeepsAction m = (action : Value) → Keeps (HasEntry "--action" action) m

  -- The state ends a reading of all plugs, one after another, and each was "off".
  pub record ReadOff (get_power : Exec (State W) String) (t : State W) : Type 0 where
    pub before : State W
    pub statuses : List String
    pub reads : Reads get_power (plugs_of before) before statuses t
    pub off : All (λ r. r ≡ "off") statuses

  -- A state that differs from another in what is printed, if at all.
  pub printed_only :
      (s : State W) {lines : List String} {t : State W}
      → record s { printed = lines } ≡ t
      → t ≡ record s { printed = t.printed }
  printed_only s b = sym b ∙ (λ i. record s { printed = (b i).printed })

  module _ (system : System W) (agent : Agent W) (fuel : ℕ)
      (get_power : Exec (State W) String) where
    -- What follows the reading of the status: it was "off", or the plugs were powered off with success. A
    -- reading of all plugs as off had ended then, and after it there was only printing.
    pub record EndsOff (found : Option String) (asked : State W) (n : ℕ) (t : State W)
        : Type 0 where
      pub status : n ≡ ec_ok
      pub last : State W
      pub reached :
          ((found ≡ some "off") × (last ≡ asked))
          ⊎ (set_multi_power system agent fuel 1 asked ≡ (ok true, last))
      pub read : ReadOff get_power last
      pub only_printed : t ≡ record last { printed = t.printed }

    -- The whole run, from the options on: the plugs were taken from them, and the status was read.
    pub record PoweredOff (s : State W) (n : ℕ) (t : State W) : Type 0 where
      pub named : State W
      pub taken : take_plugs s ≡ (ok tt, named)
      pub found : Option String
      pub asked : State W
      pub status_read : read_status agent named ≡ (ok found, asked)
      pub ended : EndsOff found asked n t

  pub fail-ok :
      {A : Type 0} (code : ErrorCode) (s t : State W) (a : A) → fail code s ≡ (ok a, t) → ⊥
  unfolding fail
  fail-ok code s t a h = cc

  rescue-ok :
      {A : Type 0} (r : Outcome A) (handler : Exception → Exec (State W) A)
      → ((e : Exception) (s t : State W) (a : A) → handler e s ≡ (ok a, t) → ⊥)
      → (s t : State W) (a : A) → rescue r handler s ≡ (ok a, t)
      → (r ≡ ok a) × (s ≡ t)
  rescue-ok (ok b) handler never s t a h = (ap (λ x. x.0) h, ap (λ x. x.1) h)
  rescue-ok (raised e) handler never s t a h = absurd (never e s t a h)
  rescue-ok (exit n) handler never s t a h = absurd (cc)
  rescue-ok diverged handler never s t a h = absurd (cc)

  on_exception-ok : (e : Exception) (s t : State W) (n : ℕ) → on_exception e s ≡ (ok n, t) → ⊥
  unfolding on_exception
  on_exception-ok Exception.eof s t n h = cc
  on_exception-ok e s t n h = cc

  -- `fence_action` returns only where the body of its `try` statement does.
  pub fence_action-ok :
      (system : System W) (agent : Agent W) (fuel : ℕ) (s t : State W) {n : ℕ}
      → fence_action system agent fuel s ≡ (ok n, t)
      → fence_action_body system agent fuel s ≡ (ok n, t)
  unfolding fence_action
  fence_action-ok system agent fuel s t {n} h =
      let (e, same) =
        rescue-ok (fence_action_body system agent fuel s).0 on_exception on_exception-ok
          (fence_action_body system agent fuel s).1 t n h in
      λ i. (e i, same i)

  pub read_status-ok :
      (agent : Agent W) (get_power : Exec (State W) String)
      → agent.get_power ≡ some get_power
      → (s : State W) (status : Option String) (t : State W) → read_status agent s ≡ (ok status, t)
      → ((status ≡ none) × (t ≡ s))
        ⊎ ((r : String) × (status ≡ some r)
            × (get_multi_power (some get_power) s ≡ (ok r, t))
            × ((r ≡ "on") ⊎ (r ≡ "off")))
  unfolding read_status
  read_status-ok agent get_power e s status t h =
      elim (Bool-cases (contains s.device_opt "no_status")) [
        | inl blind ↦ let (a, b) = pure-ok none s (rw blind at h) in inl (sym a, sym b)
        | inr sighted ↦ inr (
            on_ok (get_multi_power agent.get_power) _ s (rw sighted at h) λ r u polled h.
              elim (Bool-cases (r == "on" || r == "off")) [
                | inl good ↦
                    let (a, b) = pure-ok (some r) u (rw good at h) in
                    (r, sym a, (rw e at polled) ∙ (λ i. (ok r, b i)), ground arith)
                | inr bad ↦ absurd (fail-ok ec_status u t status (rw bad at h))
              ])
      ]

  module _ (system : System W) (agent : Agent W) (fuel : ℕ) (set_power : Exec (State W) (Unit {0}))
      (get_power : Exec (State W) String) (sets : agent.set_power ≡ some set_power)
      (gets_status : agent.get_power ≡ some get_power) where
    set_multi_power-async :
        (n : ℕ)
        → set_multi_power system agent fuel n
          ≡ async_set_multi_power system set_power get_power fuel n
    unfolding set_multi_power
    set_multi_power-async n = rw (sets, gets_status)

    module _ (ks : KeepsAction set_power) (kg : KeepsAction get_power) where
      -- A confirmed state whose action is "off" ends a reading of all plugs as "off".
      ReadOff-Confirmed :
          (t : State W)
          → Confirmed get_power t
          → HasEntry "--action" (text "off") t
          → ReadOff get_power t
      ReadOff-Confirmed t c h = record {
        before = c.before;
        statuses = c.statuses;
        reads = c.reads;
        off = (overall-off c.statuses).0 (ground (arith, c.agrees));
      }

      pub set_off-ReadOff :
          (n : ℕ) (s t : State W)
          → HasEntry "--action" (text "off") s
          → set_multi_power system agent fuel n s ≡ (ok true, t)
          → ReadOff get_power t
      set_off-ReadOff n s t h e =
          let e' = (λ i. sym (set_multi_power-async n) i s) ∙ e in
          ReadOff-Confirmed t
            (async_set_multi_power-Confirmed system get_power set_power fuel n s t e')
            (subst (HasEntry "--action" (text "off")) (ap (λ x. x.1) e') (
              (async_set_multi_power-Keeps "--action" (text "off") action-IsApart system set_power
                  get_power (ks _) (kg _) fuel n).at
                s h))

      power_off-ReadOff :
          (found : Option String) (s : State W) {n : ℕ} {t : State W}
          → HasEntry "--action" (text "off") s
          → power_off system agent fuel s ≡ (ok n, t)
          → EndsOff system agent fuel get_power found s n t
      unfolding power_off
      power_off-ReadOff found s {n} {t} h e =
          on_ok (set_multi_power system agent fuel 1) _ s e λ done u ran e. elim (Bool-cases done) [
            | inl yes_done ↦
                let (a, b) = pure-ok ec_ok (print "Success: Powered OFF" u).1 (rw yes_done at e) in
                record {
                  status = sym a;
                  last = u;
                  reached = inr (ran ∙ (λ i. (ok (yes_done i), u)));
                  read = set_off-ReadOff 1 s u h (ran ∙ (λ i. (ok (yes_done i), u)));
                  only_printed = printed_only u b;
                }
            | inr no_done ↦ absurd (fail-ok ec_waiting_off u t n (rw no_done at e))
          ]

      perform-off :
          (status : Option String)
          → perform system agent fuel (text "off") status ≡ power_off system agent fuel
      unfolding perform string_eq
      perform-off status = refl

      pub read_off :
          (s t : State W) (r : String)
          → get_multi_power (some get_power) s ≡ (ok r, t)
          → r ≡ "off"
          → ReadOff get_power t
      read_off s t r polled off =
          let (statuses, reads, sum) = get_multi_power-Reads get_power s polled in
          record {
            before = s;
            statuses = statuses;
            reads = reads;
            off = (overall-off statuses).0 (sym sum ∙ off);
          }

      already-ok :
          (status : Option String) (s : State W) {n : ℕ} {t : State W}
          → already system agent fuel status s ≡ (ok n, t)
          → (n ≡ ec_ok) × (t ≡ record s { printed = t.printed })
      unfolding already
      already-ok none s e = let (a, b) = pure-ok ec_ok s e in (sym a, printed_only s b)
      already-ok (some r) s e =
          let (a, b) = pure-ok ec_ok (print ("Success: Already " <> upper r) s).1 e in
          (sym a, printed_only s b)

      -- The status, if it was read, ended a reading of all plugs.
      act_on-EndsOff :
          (status : Option String) (s : State W) {n : ℕ} {t : State W}
          → HasEntry "--action" (text "off") s
          → (status ≡ some "off" → ReadOff get_power s)
          → act_on system agent fuel status s ≡ (ok n, t)
          → EndsOff system agent fuel get_power status s n t
      unfolding act_on
      act_on-EndsOff status s {n} {t} h read e =
          let e' =
            sym
              (bind_of_ok (option "--action") _ s (option_of_HasEntry "--action" (text "off") s h))
            ∙ e in
          let forced = contains s.device_opt "force_on" in
          elim (Bool-cases (
            matches_status (text "off") status
            && not (matches_status (text "on") status && forced))) [
              | inl same ↦
                  let (a, b) = already-ok status s (rw same at e') in
                  record {
                    status = a;
                    last = s;
                    reached = inl (status_of_matches status (and-left _ _ same), refl);
                    read = read (status_of_matches status (and-left _ _ same));
                    only_printed = b;
                  }
              | inr other ↦
                  power_off-ReadOff status s h
                    ((λ i. sym (perform-off status) i s) ∙ (rw other at e'))
            ]

      -- Reading the status keeps the action, and a status "off" comes from a reading of all plugs.
      pub read_status-facts :
          (action : Value) (u v : State W) (status : Option String)
          → HasEntry "--action" action u
          → read_status agent u ≡ (ok status, v)
          → HasEntry "--action" action v × (status ≡ some "off" → ReadOff get_power v)
      read_status-facts action u v status h read =
          elim (read_status-ok agent get_power gets_status u status v read) [
            | inl (blind, same) ↦
                (subst (HasEntry "--action" action) (sym same) h, λ o. absurd (cc))
            | inr (r, found, polled, _) ↦ (
              subst (HasEntry "--action" action) (ap (λ x. x.1) polled) (
                  (get_multi_power-Keeps "--action" action action-IsApart get_power (kg action)).at
                    u h),
              λ o. read_off u v r polled (ground arith),
            )
          ]

      -- A run of the action "off" by an agent with functions to set and to get the power that leave
      -- "--action" alone: if it returns, it returns 0. The plugs were taken from the options and the status
      -- was read, and it was "off", or the plugs were then powered off with success. Either way the run ends
      -- in the state in which a reading of every plug in turn ended, in which each plug was off; after that
      -- reading it only printed.
      pub fence_action_off :
          (s : State W) {n : ℕ} {t : State W}
          → HasEntry "--action" (text "off") s
          → fence_action system agent fuel s ≡ (ok n, t)
          → PoweredOff system agent fuel get_power s n t
      fence_action_off s {n} {t} h e =
          on_plain_run system agent fuel "off" off-IsPlain s h
            (fence_action-ok system agent fuel s t e)
            λ u taken h e.
              on_ok (read_status agent) (act_on system agent fuel) u e λ found v read e.
                let (h', off) = read_status-facts (text "off") u v found h read in
                record {
                  named = u;
                  taken = taken;
                  found = found;
                  asked = v;
                  status_read = read;
                  ended = act_on-EndsOff found v h' off e;
                }
