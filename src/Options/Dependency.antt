-- ===== src/Options/Dependency.antt =====
-- DEPENDENCY_OPT and `_add_dependency_options` of lib/fencing.py.py.
use fence_agents.Base.{
  String, ◌≡◌, refl, ◌∙◌, Bool, true, false, not, ◌&&◌, ◌||◌, none, some, List, [], ◌∷◌, ◌++◌,
  arith, contains, contains-append, contains-outside, outside, ◌==◌, string_eq, if◌then◌else◌,
}
use fence_agents.Dict
use fence_agents.Dict.{Dict}

unfoldable pub dependency_opt : Dict (List String)
dependency_opt =
    (
      "default",
      "help" ∷ "debug" ∷ "verbose" ∷ "verbose_level" ∷ "version" ∷ "action" ∷ "agent"
          ∷ "power_timeout" ∷ "shell_timeout" ∷ "login_timeout" ∷ "disable_timeout" ∷ "power_wait"
          ∷ "stonith_status_sleep" ∷ "retry_on" ∷ "delay" ∷ "plug_separator" ∷ "quiet" ∷ [],
    )
    ∷ ("passwd", "passwd_script" ∷ [])
    ∷ ("sudo", "sudo_path" ∷ [])
    ∷ ("secure", "identity_file" ∷ "ssh_options" ∷ "ssh_path" ∷ "inet4_only" ∷ "inet6_only" ∷ [])
    ∷ ("telnet", "telnet_path" ∷ [])
    ∷ ("ipaddr", "ipport" ∷ [])
    ∷ ("port", "separator" ∷ [])
    ∷ ("ssl", "ssl_secure" ∷ "ssl_insecure" ∷ "gnutlscli_path" ∷ [])
    ∷ (
      "snmp",
      "snmp_auth_prot" ∷ "snmp_sec_level" ∷ "snmp_priv_prot" ∷ "snmp_priv_passwd"
          ∷ "snmp_priv_passwd_script" ∷ "community" ∷ "snmpset_path" ∷ "snmpget_path"
          ∷ "snmpwalk_path" ∷ [],
    )
    ∷ []

-- DEPENDENCY_OPT[opt], and nothing for an option that is not in it
unfoldable pub dependencies : String → List String
dependencies opt = elim (Dict.get dependency_opt opt) [ none ↦ [] | some opts ↦ opts ]

-- for opt in opts: added_opt.extend([y for y in DEPENDENCY_OPT[opt] if options.count(y) == 0])
unfoldable pub extend : List String → List String → List String
unfolding dependencies
extend options [] = []
extend options (opt ∷ opts) = outside options (dependencies opt) ++ extend options opts

-- whether the plug takes the place of the address
abbrev pub takes_port_as_ip : List String → Bool
takes_port_as_ip opts =
    not (contains opts "port") && not (contains opts "nodename") && contains opts "ipaddr"

-- The options that are added; where "port_as_ip" is one, the help text of "port" changes too.
unfoldable pub add_dependency_options : List String → List String
unfolding extend
add_dependency_options options =
    let added = extend options (options ++ "default" ∷ []) in
    if takes_port_as_ip (options ++ added) then added ++ "port_as_ip" ∷ [] else added

-- `a` is a dependency of one of the options
abbrev pub is_needed : List String → String → Bool
is_needed [] a = false
is_needed (opt ∷ opts) a = contains (dependencies opt) a || is_needed opts a

contains-extend :
    (options opts : List String) (a : String)
    → contains (extend options opts) a ≡ (is_needed opts a && not (contains options a))
unfolding extend
contains-extend options [] a = refl
contains-extend options (opt ∷ opts) a =
    contains-append (outside options (dependencies opt)) (extend options opts) a
    ∙ ground (arith, contains-outside options (dependencies opt) a, contains-extend options opts a)

contains-last :
    (flag : Bool) (xs : List String) (y a : String)
    → contains (if flag then xs ++ y ∷ [] else xs) a ≡ (contains xs a || (flag && a == y))
contains-last true xs y a = contains-append xs (y ∷ []) a ∙ ground arith
contains-last false xs y a = ground arith

-- The option is one of these, or a dependency of one of them or of "default".
abbrev pub is_present : List String → String → Bool
is_present options a = contains options a || is_needed (options ++ "default" ∷ []) a

contains-extended :
    (options : List String) (a : String)
    → contains (options ++ extend options (options ++ "default" ∷ [])) a ≡ is_present options a
contains-extended options a =
    contains-append options (extend options (options ++ "default" ∷ [])) a
    ∙ ground (arith, contains-extend options (options ++ "default" ∷ []) a)

-- An option is added exactly if it is a dependency of one of the options or of "default" and is not among
-- the options; and "port_as_ip" is added too where neither "port" nor "nodename" is an option or such a
-- dependency, and "ipaddr" is one.
pub contains-add_dependency_options :
    (options : List String) (a : String)
    → contains (add_dependency_options options) a ≡ (
        (is_needed (options ++ "default" ∷ []) a && not (contains options a))
        || ((not (is_present options "port")
              && not (is_present options "nodename")
              && is_present options "ipaddr")
            && a == "port_as_ip"))
unfolding add_dependency_options
contains-add_dependency_options options a =
    contains-last _ (extend options (options ++ "default" ∷ [])) "port_as_ip" a ∙ (λ i.
      contains-extend options (options ++ "default" ∷ []) a i
      || ((not (contains-extended options "port" i)
            && not (contains-extended options "nodename" i)
            && contains-extended options "ipaddr" i)
          && a == "port_as_ip"))

pub is_needed-append :
    (xs ys : List String) (a : String) → is_needed (xs ++ ys) a ≡ (is_needed xs a || is_needed ys a)
is_needed-append [] ys a = refl
is_needed-append (x ∷ xs) ys a = ground (arith, is_needed-append xs ys a)
