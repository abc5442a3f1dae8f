-- ===== src/Power/Status.antt =====
-- Reading the status of all plugs: `get_multi_power` against the list of the statuses that were read.
use fence_agents.Base.{
  String, ◌≡◌, refl, sym, ◌∙◌, ap, ◌↔◌, some, List, [], ◌∷◌, ◌++◌, arith, All, ◌==◌, string_eq,
  if◌then◌else◌,
}
use fence_agents.Exec.{Exec, ok, ◌>>=◌}
use fence_agents.Exec.Rules.{bind-ok, bind_of_ok}
use fence_agents.State.{State}
use fence_agents.Power.{plugs_of, select, call, poll_plugs, get_multi_power}

-- The status that stands for all plugs: the last that is not "off", and "off" if there is none.
abbrev pub overall : List String → String
overall [] = "off"
overall (status ∷ statuses) = let rest = overall statuses in if rest == "off" then status else rest

pub overall-off :
    (statuses : List String) → (overall statuses ≡ "off") ↔ All (λ r. r ≡ "off") statuses
overall-off [] = (λ _. tt, λ _. refl)
overall-off (r ∷ rs) = ground (arith, overall-off rs)

fold_status :
    (r status rest : String)
    → (if rest == "off" then (if r == "off" then status else r) else rest) ≡ (
        let whole = (if rest == "off" then r else rest) in if whole == "off" then status else whole)
fold_status r status rest = ground arith

module _ {W : Type 0} where
  -- the state in which the agent is called for a plug
  abbrev pub selected : String → State W → State W
  selected plug s = (select plug s).1

  -- The agent read these statuses, one for each plug and in their order, from one state to another.
  abbrev pub Reads : Exec (State W) String → List String → State W → List String → State W → Type 0
  Reads get_power [] s [] t = s ≡ t
  Reads get_power [] s (r ∷ rs) t = ⊥
  Reads get_power (plug ∷ plugs) s [] t = ⊥
  Reads get_power (plug ∷ plugs) s (r ∷ rs) t =
      (u : State W) × (get_power (selected plug s) ≡ (ok r, u)) × Reads get_power plugs u rs t

  select-ok : (plug : String) (s : State W) → select plug s ≡ (ok tt, selected plug s)
  unfolding select
  select-ok plug s = ground arith

  pub select-bind :
      {B : Type 0} (plug : String) (f : Unit {0} → Exec (State W) B) (s : State W)
      → (select plug >>= f) s ≡ f tt (selected plug s)
  select-bind plug f s = bind_of_ok (select plug) f s (select-ok plug s)

  module _ (get_power : Exec (State W) String) where
    poll_plugs-step :
        (plug : String) (plugs : List String) (status : String) (s : State W) {r : String}
        {u : State W}
        → get_power (selected plug s) ≡ (ok r, u)
        → poll_plugs (some get_power) (plug ∷ plugs) status s
          ≡ poll_plugs (some get_power) plugs (if r == "off" then status else r) u
    unfolding poll_plugs
    poll_plugs-step plug plugs status s e =
        select-bind plug
          (λ _. call (some get_power) >>= λ r.
            poll_plugs (some get_power) plugs (if r == "off" then status else r))
          s
        ∙ bind_of_ok (call (some get_power))
            (λ r. poll_plugs (some get_power) plugs (if r == "off" then status else r))
            (selected plug s) e

    poll_plugs-Reads :
        (plugs : List String) (status : String) (s : State W) {r : String} {t : State W}
        → poll_plugs (some get_power) plugs status s ≡ (ok r, t)
        → (statuses : List String) × Reads get_power plugs s statuses t
          × (r ≡ (if overall statuses == "off" then status else overall statuses))
    unfolding poll_plugs
    poll_plugs-Reads [] status s h = ([], cc, ground arith)
    poll_plugs-Reads (plug ∷ plugs) status s h =
        let next =
          λ (r : String). poll_plugs (some get_power) plugs (if r == "off" then status else r) in
        let (r, u, e, k) =
          bind-ok (call (some get_power)) next (selected plug s)
            (sym (select-bind plug (λ _. call (some get_power) >>= next) s) ∙ h) in
        let (statuses, reads, same) =
          poll_plugs-Reads plugs (if r == "off" then status else r) u k in
        (r ∷ statuses, (u, e, reads), same ∙ fold_status r status (overall statuses))

    -- The statuses of all plugs are read, and what comes back is the last that is not "off".
    pub get_multi_power-Reads :
        (s : State W) {r : String} {t : State W}
        → get_multi_power (some get_power) s ≡ (ok r, t)
        → (statuses : List String) × Reads get_power (plugs_of s) s statuses t
          × (r ≡ overall statuses)
    unfolding get_multi_power
    get_multi_power-Reads s h =
        let (statuses, reads, same) = poll_plugs-Reads (plugs_of s) "off" s h in
        (statuses, reads, ground arith)

    poll_plugs_of_Reads :
        (plugs : List String) (status : String) (s : State W) (statuses : List String) (t : State W)
        → Reads get_power plugs s statuses t
        → poll_plugs (some get_power) plugs status s
          ≡ (ok (if overall statuses == "off" then status else overall statuses), t)
    unfolding poll_plugs
    poll_plugs_of_Reads [] status s [] t h = rw h (ap (λ x. (ok x, t)) (ground arith))
    poll_plugs_of_Reads [] status s (_ ∷ _) t h = absurd h
    poll_plugs_of_Reads (_ ∷ _) status s [] t h = absurd h
    poll_plugs_of_Reads (plug ∷ plugs) status s (r ∷ rs) t (u, e, h) =
        poll_plugs-step plug plugs status s e
        ∙ poll_plugs_of_Reads plugs _ u rs t h
        ∙ ap (λ x. (ok x, t)) (fold_status r status (overall rs))

    -- A result of `get_multi_power` is exactly a reading of every plug, in order, summed up by
    -- `overall`.
    pub get_multi_power_iff :
        (s : State W) (r : String) (t : State W)
        → (get_multi_power (some get_power) s ≡ (ok r, t)) ↔ (
            (statuses : List String) × Reads get_power (plugs_of s) s statuses t
            × (r ≡ overall statuses))
    unfolding get_multi_power
    get_multi_power_iff s r t = (
      get_multi_power-Reads s,
      λ (statuses, reads, same).
          poll_plugs_of_Reads (plugs_of s) "off" s statuses t reads
          ∙ ap (λ x. (ok x, t)) (ground arith),
    )

    -- The answer is "off" exactly when every plug has been read, in order, and each reading was "off".
    pub get_multi_power-off :
        (s t : State W)
        → (get_multi_power (some get_power) s ≡ (ok "off", t)) ↔ (
            (statuses : List String) × Reads get_power (plugs_of s) s statuses t
            × All (λ r. r ≡ "off") statuses)
    get_multi_power-off s t = (
      λ h.
          let (statuses, reads, same) = get_multi_power-Reads s h in
          (statuses, reads, (overall-off statuses).0 (sym same)),
      λ (statuses, reads, off).
          (get_multi_power_iff s "off" t).1 (statuses, reads, sym ((overall-off statuses).1 off)),
    )

overall-last : (statuses : List String) → overall (statuses ++ "on" ∷ []) ≡ "on"
unfolding string_eq
overall-last [] = refl
overall-last (r ∷ rs) = rw (overall-last rs)

module _ {W : Type 0} (get_power : Exec (State W) String) where
  -- Where the last plug is read as "on" the answer is "on", whatever was read of the plugs before it.
  pub get_multi_power-masked :
      (s t : State W) (statuses : List String)
      → Reads get_power (plugs_of s) s (statuses ++ "on" ∷ []) t
      → get_multi_power (some get_power) s ≡ (ok "on", t)
  get_multi_power-masked s t statuses reads =
      (get_multi_power_iff get_power s "on" t).1
        (statuses ++ "on" ∷ [], reads, sym (overall-last statuses))
