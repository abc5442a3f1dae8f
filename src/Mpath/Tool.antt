-- ===== src/Mpath/Tool.antt =====
-- The commands of agents/mpath/fence_mpath.py on a machine whose `mpathpersist` does what the registry
-- says.
use fence_agents.Base.{String, ◌<>◌, ◌≡◌, refl, ap, ◌∙◌, Bool, true, false, not, string_eq}
use fence_agents.Dict
use Prim.Native.String.append
use fence_agents.Exec.{ok, ◌>>=◌}
use fence_agents.Exec.Rules.{bind_of_ok}
use fence_agents.State.{State, text, option, has_option}
use fence_agents.State.Entries.{HasEntry, option_of_HasEntry}
use fence_agents.Action.{as_text}
use fence_agents.Scsi.{Host, Ran, is_failure, text_option}
use fence_agents.Mpath.{
  sudo_prefix, run_cmd, preempt_abort, get_reservation_key, get_registration_keys, is_block_device,
}
use fence_agents.Mpath.Registry.{Registry, IsTool, Config, preempted}

module _ {W : Type 0} (host : Host W) where
  pub text_option-ok :
      (name value : String) (s : State W)
      → HasEntry name (text value) s
      → text_option host name s ≡ (ok value, s)
  unfolding text_option as_text
  text_option-ok name value s h =
      bind_of_ok (option name) as_text s (option_of_HasEntry name (text value) s h)

  sudo_prefix-ok :
      (s : State W) → Dict.has s.options "--use-sudo" ≡ false → sudo_prefix host s ≡ (ok "", s)
  unfolding sudo_prefix has_option
  sudo_prefix-ok s h = rw (h, ◌>>=◌) refl

  run_cmd-ok :
      (cmd : String) (s t : State W) (ran : Ran)
      → Dict.has s.options "--use-sudo" ≡ false
      → host.run_command cmd s ≡ (ok ran, t)
      → run_cmd host cmd s ≡ (ok ran, t)
  unfolding run_cmd
  run_cmd-ok cmd s t ran h e =
      bind_of_ok (sudo_prefix host) _ s (sudo_prefix-ok s h)
      ∙ ap (λ c. host.run_command c s) (append.nil cmd)
      ∙ e

  module _ (view : W → Registry) (path key host_key dev : String)
      (tool : IsTool host view path key host_key dev) (s : State W)
      (config : Config path key s.options) where
    pub is_block_device-ok : is_block_device host dev s ≡ (ok tt, s)
    unfolding is_block_device
    is_block_device-ok = rw (tool.exists s.world, ◌>>=◌, tool.is_block s.world) refl

    pub get_registration_keys-ok :
        get_registration_keys host dev true s ≡ (ok ((view s.world).keys dev), s)
    unfolding get_registration_keys
    get_registration_keys-ok =
        let (out, e, read) = tool.reads_keys s in
        bind_of_ok (text_option host "--mpathpersist-path") _ s
          (text_option-ok "--mpathpersist-path" path s config.path_entry)
        ∙ bind_of_ok (run_cmd host (path <> " -i -k -d " <> dev)) _ s
            (run_cmd-ok _ s s _ config.no_sudo e)
        ∙ ap (λ keys. (ok keys, s)) read

    pub get_reservation_key-ok :
        get_reservation_key host dev s ≡ (ok ((view s.world).holder dev), s)
    unfolding get_reservation_key
    get_reservation_key-ok =
        let (out, e, read) = tool.reads_holder s in
        bind_of_ok (text_option host "--mpathpersist-path") _ s
          (text_option-ok "--mpathpersist-path" path s config.path_entry)
        ∙ bind_of_ok (run_cmd host (path <> " -i -r -d " <> dev)) _ s
            (run_cmd-ok _ s s _ config.no_sudo e)
        ∙ ap (λ key. (ok key, s)) read

    pub preempt_abort-ok :
        (done : Bool) × (w : W) × (preempt_abort host host_key dev s
          ≡ (ok done, record s { world = w }))
        × (view w ≡ preempted host_key key dev (view s.world))
    unfolding preempt_abort
    preempt_abort-ok =
        let (ran, w, e, viewed) = tool.preempts s in
        (
          not (is_failure ran.rc),
          w,
          bind_of_ok (text_option host "--mpathpersist-path") _ s
                (text_option-ok "--mpathpersist-path" path s config.path_entry)
              ∙ bind_of_ok (text_option host "--plug") _ s
                  (text_option-ok "--plug" key s config.key_entry)
              ∙ bind_of_ok
                  (run_cmd host (
                    path <> " -o --preempt-abort --prout-type=5 --param-rk=" <> host_key
                    <> " --param-sark=" <> key <> " -d " <> dev))
                  _ s (run_cmd-ok _ s (record s { world = w }) ran config.no_sudo e),
          viewed,
        )
