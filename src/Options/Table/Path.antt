-- ===== src/Options/Table/Path.antt =====
-- The entries of `all_opt` in lib/fencing.py.py from `telnet_path` to `quiet`, in their order.
use fence_agents.Base.{[], ◌∷◌, some}
use fence_agents.Dict.{Dict}
use fence_agents.Options.Spec.{Spec, marker}

unfoldable pub path_options : Dict Spec
path_options =
    (
      "telnet_path",
      record marker {
        getopt = ":";
        longopt = some "telnet-path";
        help = "--telnet-path=[path]           Path to telnet binary";
        required = some "0";
        default = some "@TELNET_PATH@";
        order = 300;
      },
    )
    ∷ (
      "ssh_path",
      record marker {
        getopt = ":";
        longopt = some "ssh-path";
        help = "--ssh-path=[path]              Path to ssh binary";
        required = some "0";
        default = some "@SSH_PATH@";
        order = 300;
      },
    )
    ∷ (
      "gnutlscli_path",
      record marker {
        getopt = ":";
        longopt = some "gnutlscli-path";
        help = "--gnutlscli-path=[path]        Path to gnutls-cli binary";
        required = some "0";
        default = some "@GNUTLSCLI_PATH@";
        order = 300;
      },
    )
    ∷ (
      "sudo_path",
      record marker {
        getopt = ":";
        longopt = some "sudo-path";
        help = "--sudo-path=[path]             Path to sudo binary";
        required = some "0";
        default = some "@SUDO_PATH@";
        order = 300;
      },
    )
    ∷ (
      "snmpwalk_path",
      record marker {
        getopt = ":";
        longopt = some "snmpwalk-path";
        help = "--snmpwalk-path=[path]         Path to snmpwalk binary";
        required = some "0";
        default = some "@SNMPWALK_PATH@";
        order = 300;
      },
    )
    ∷ (
      "snmpset_path",
      record marker {
        getopt = ":";
        longopt = some "snmpset-path";
        help = "--snmpset-path=[path]          Path to snmpset binary";
        required = some "0";
        default = some "@SNMPSET_PATH@";
        order = 300;
      },
    )
    ∷ (
      "snmpget_path",
      record marker {
        getopt = ":";
        longopt = some "snmpget-path";
        help = "--snmpget-path=[path]          Path to snmpget binary";
        required = some "0";
        default = some "@SNMPGET_PATH@";
        order = 300;
      },
    )
    ∷ ("snmp", marker)
    ∷ (
      "port_as_ip",
      record marker {
        longopt = some "port-as-ip";
        help = "--port-as-ip                   Make \"port/plug\" to be an alias to IP address";
        required = some "0";
        order = 200;
      },
    )
    ∷ ("on_target", marker)
    ∷ (
      "quiet",
      record marker {
        getopt = "q";
        longopt = some "quiet";
        help =
            "-q, --quiet                    Disable logging to stderr. Does not affect --verbose or --debug-file or logging to syslog.";
        required = some "0";
        order = 50;
      },
    )
    ∷ []
