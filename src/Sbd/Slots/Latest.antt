-- ===== src/Sbd/Slots/Latest.antt =====
-- The status of a node that agents/sbd/fence_sbd.py finds, and the lines that the devices gave.
use fence_agents.Base.{
  ℕ, String, ◌≡◌, refl, sym, ap, ◌∙◌, Option, none, some, List, [], ◌∷◌, Bool-cases, Option-cases,
  inl, inr, ◌==◌, string_eq, if◌then◌else◌,
}
use fence_agents.Dict
use fence_agents.Dict.{Dict, get-put}
use fence_agents.Exec.{ok, ◌>>=◌}
use fence_agents.Exec.Rules.{on_ok, pure-ok}
use fence_agents.State.{State, log}
use fence_agents.Text.{includes, split_from, words}
use fence_agents.Scsi.{Ran}
use fence_agents.Commands.{Launcher, run_commands}
use fence_agents.Sbd.{generate_sbd_command, shown_option}
use fence_agents.Sbd.Slots.{
  translate_status, slot_of, add_slots, unknown_node, get_node_list, get_power_status,
}

-- What the last line for the node says of it, of the lines before one that says "NOT dumped".
abbrev pub pick : String → Option (String × String) → Option String → Option String
pick plug slot (some later) = some later
pick plug none none = none
pick plug (some (port, sbd_status)) none = if plug == port then some sbd_status else none

abbrev pub latest : String → List String → Option String
latest plug [] = none
latest plug (line ∷ lines) =
    if line == ""
    then latest plug lines
    else if includes "NOT dumped" line
    then none
    else pick plug (slot_of (words line)) (latest plug lines)

-- the status in the node list for what a line says, if one does
abbrev pub status_or : Option String → Option String → Option String
status_or known none = known
status_or known (some sbd_status) = some (translate_status sbd_status)

pick-status_or :
    (plug port sbd_status : String) (known later : Option String)
    → status_or (if plug == port then some (translate_status sbd_status) else known) later
      ≡ status_or known (pick plug (some (port, sbd_status)) later)
pick-status_or plug port sbd_status known (some later) = refl
pick-status_or plug port sbd_status known none = elim (Bool-cases (plug == port)) [
  | inl same ↦ rw same refl
  | inr other ↦ rw other refl
]

module _ {W : Type 0} where
  add_slots-latest :
      (plug : String) (lines : List String) (nodelist : Dict String) (s : State W) {r : Dict String}
      {t : State W}
      → add_slots lines nodelist s ≡ (ok r, t)
      → Dict.get r plug ≡ status_or (Dict.get nodelist plug) (latest plug lines)
  unfolding add_slots
  add_slots-latest plug [] nodelist s h = sym (ap (λ d. Dict.get d plug) (pure-ok nodelist s h).0)
  add_slots-latest plug (line ∷ lines) nodelist s h = elim (Bool-cases (line == "")) [
    | inl empty ↦ rw empty (add_slots-latest plug lines nodelist s (rw empty at h))
    | inr full ↦ elim (Bool-cases (includes "NOT dumped" line)) [
      | inl bad ↦
          rw full (
            rw bad
              (sym (ap (λ d. Dict.get d plug) (pure-ok nodelist s (rw bad at rw full at h)).0)))
      | inr good ↦ elim (Option-cases (slot_of (words line))) [
        | inl few ↦ absurd (cc (rw few at rw good at rw full at h))
        | inr ((port, sbd_status), found) ↦ rw full (
            rw good (
              rw found (
                add_slots-latest plug lines (Dict.put nodelist port (translate_status sbd_status)) s
                  (rw found at rw good at rw full at h)
                ∙ ap (λ known. status_or known (latest plug lines))
                    (get-put nodelist port (translate_status sbd_status) plug)
                ∙ pick-status_or plug port sbd_status (Dict.get nodelist plug)
                    (latest plug lines))))
      ]
    ]
  ]

  -- Adding the slots changes nothing else.
  pub add_slots-world :
      (lines : List String) (nodelist : Dict String) (s : State W)
      → (add_slots lines nodelist s).1 ≡ s
  unfolding add_slots
  add_slots-world [] nodelist s = refl
  add_slots-world (line ∷ lines) nodelist s = elim (Bool-cases (line == "")) [
    | inl empty ↦ rw empty (add_slots-world lines nodelist s)
    | inr full ↦ elim (Bool-cases (includes "NOT dumped" line)) [
      | inl bad ↦ rw full (rw bad refl)
      | inr good ↦ elim (Option-cases (slot_of (words line))) [
        | inl few ↦ rw full (rw good (rw few refl))
        | inr ((port, sbd_status), found) ↦ rw full (
            rw good (
              rw found
                (add_slots-world lines (Dict.put nodelist port (translate_status sbd_status)) s)))
      ]
    ]
  ]

-- the status that is returned for what the last line says, if there is one
abbrev pub reported : Option String → String
reported none = "UNKWNOWN"
reported (some sbd_status) = translate_status sbd_status

module _ {W : Type 0} where
  unknown_node-reported :
      (plug : String) (known slot : Option String) (s : State W) {r : String} {t : State W}
      → known ≡ status_or none slot
      → unknown_node plug known s ≡ (ok r, t)
      → (r ≡ reported slot) × (t.world ≡ s.world)
  unfolding unknown_node log ◌>>=◌
  unknown_node-reported plug none none s e h = (cc h, ap (λ p. p.1.world) (sym h))
  unknown_node-reported plug (some status) (some slot) s e h =
      (cc (h, e), ap (λ p. p.1.world) (sym h))
  unknown_node-reported plug none (some slot) s e h = absurd (cc e)
  unknown_node-reported plug (some status) none s e h = absurd (cc e)

module _ {W : Type 0} (launcher : Launcher W) (fuel : ℕ) where
  -- A run of the "list" commands, and the status of the node "--plug" in its output.
  pub record PowerRead (s : State W) (status : String) (t : State W) : Type 0 where
    pub plug : String
    pub named : State W
    pub plug_read : shown_option "--plug" s ≡ (ok plug, named)
    pub commands : List String
    pub before : State W
    pub list_commands : generate_sbd_command "list" "None" named ≡ (ok commands, before)
    pub ran : Ran
    pub after : State W
    pub listed : run_commands launcher fuel commands before ≡ (ok ran, after)
    pub last : status ≡ reported (latest plug (split_from "\n" 0 ran.out))
    pub same_world : t.world ≡ after.world

  -- A status that the agent reads is what the last line of the listing for the node translates to; without
  -- such a line it is "UNKWNOWN".
  pub get_power_status-latest :
      (s : State W) {status : String} {t : State W}
      → get_power_status launcher fuel s ≡ (ok status, t)
      → PowerRead s status t
  unfolding get_power_status get_node_list Dict.get
  get_power_status-latest s h = on_ok (shown_option "--plug") _ s h λ plug named plug_read h.
      on_ok (get_node_list launcher fuel) (λ nodelist. unknown_node plug (Dict.get nodelist plug))
        named h
        λ nodelist u slots h.
          on_ok (generate_sbd_command "list" "None") _ named slots
            λ commands before list_commands e.
              on_ok (run_commands launcher fuel commands)
                (λ ran. add_slots (split_from "\n" 0 ran.out) []) before e
                λ ran after listed e.
                  let (last, world) =
                    unknown_node-reported plug (Dict.get nodelist plug)
                      (latest plug (split_from "\n" 0 ran.out)) u
                      (add_slots-latest plug (split_from "\n" 0 ran.out) [] after e) h in
                  record {
                    plug = plug;
                    named = named;
                    plug_read = plug_read;
                    commands = commands;
                    before = before;
                    list_commands = list_commands;
                    ran = ran;
                    after = after;
                    listed = listed;
                    last = last;
                    same_world =
                        world
                        ∙ ap (λ p. p.1.world) (sym e)
                        ∙ ap (λ s. s.world) (add_slots-world (split_from "\n" 0 ran.out) [] after);
                  }
