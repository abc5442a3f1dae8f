-- ===== src/Options/Table/General.antt =====
-- The entries of `all_opt` in lib/fencing.py.py from `help` to `diag`, in their order.
use fence_agents.Base.{[], ◌∷◌, some}
use fence_agents.Dict.{Dict}
use fence_agents.Options.Spec.{Spec, marker}

unfoldable pub general_options : Dict Spec
general_options =
    (
      "help",
      record marker {
        getopt = "h";
        longopt = some "help";
        help = "-h, --help                     Display this help and exit";
        required = some "0";
        shortdesc = some "Display help and exit";
        order = 55;
      },
    )
    ∷ (
      "version",
      record marker {
        getopt = "V";
        longopt = some "version";
        help = "-V, --version                  Display version information and exit";
        required = some "0";
        shortdesc = some "Display version information and exit";
        order = 54;
      },
    )
    ∷ (
      "verbose",
      record marker {
        getopt = "v";
        longopt = some "verbose";
        help =
            "-v, --verbose                  Verbose mode. Multiple -v flags can be stacked on the command line (e.g., -vvv) to increase verbosity.";
        required = some "0";
        order = 51;
      },
    )
    ∷ (
      "verbose_level",
      record marker {
        getopt = ":";
        longopt = some "verbose-level";
        help =
            "--verbose-level                Level of debugging detail in output. Defaults to the number of --verbose flags specified on the command line, or to 1 if verbose=1 in a stonith device configuration (i.e., on stdin).";
        required = some "0";
        type = some "integer";
        order = 52;
      },
    )
    ∷ (
      "debug",
      record marker {
        getopt = "D:";
        longopt = some "debug-file";
        help = "-D, --debug-file=[debugfile]   Debugging to output file";
        required = some "0";
        shortdesc = some "Write debug information to given file";
        order = 53;
      },
    )
    ∷ (
      "delay",
      record marker {
        getopt = ":";
        longopt = some "delay";
        help = "--delay=[seconds]              Wait X seconds before fencing is started";
        required = some "0";
        type = some "second";
        default = some "0";
        order = 200;
      },
    )
    ∷ ("agent", marker)
    ∷ ("web", marker)
    ∷ ("force_on", marker)
    ∷ (
      "action",
      record marker {
        getopt = "o:";
        longopt = some "action";
        help = "-o, --action=[action]          Action: status, reboot (default), off or on";
        required = some "1";
        shortdesc = some "Fencing action";
        default = some "reboot";
      },
    )
    ∷ ("fabric_fencing", marker)
    ∷ (
      "ipaddr",
      record marker {
        getopt = "a:";
        longopt = some "ip";
        help = "-a, --ip=[ip]                  IP address or hostname of fencing device";
        required = some "1";
      },
    )
    ∷ (
      "ipport",
      record marker {
        getopt = "u:";
        longopt = some "ipport";
        help = "-u, --ipport=[port]            TCP/UDP port to use for connection";
        required = some "0";
        shortdesc = some "TCP/UDP port to use for connection with device";
        type = some "integer";
      },
    )
    ∷ (
      "login",
      record marker {
        getopt = "l:";
        longopt = some "username";
        help = "-l, --username=[name]          Login name";
        required = some "0";
      },
    )
    ∷ ("no_login", marker)
    ∷ ("no_password", marker)
    ∷ ("no_port", marker)
    ∷ ("no_status", marker)
    ∷ ("no_on", marker)
    ∷ ("no_off", marker)
    ∷ ("telnet", marker)
    ∷ ("diag", marker)
    ∷ []
