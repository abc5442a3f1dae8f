-- ===== src/Options/Table/Timing.antt =====
-- The entries of `all_opt` in lib/fencing.py.py from `login_timeout` to `method`, in their order.
use fence_agents.Base.{[], ◌∷◌, some}
use fence_agents.Dict.{Dict}
use fence_agents.Options.Spec.{Spec, marker}

unfoldable pub timing_options : Dict Spec
timing_options =
    (
      "login_timeout",
      record marker {
        getopt = ":";
        longopt = some "login-timeout";
        help = "--login-timeout=[seconds]      Wait X seconds for cmd prompt after login";
        required = some "0";
        type = some "second";
        default = some "5";
        order = 200;
      },
    )
    ∷ (
      "shell_timeout",
      record marker {
        getopt = ":";
        longopt = some "shell-timeout";
        help = "--shell-timeout=[seconds]      Wait X seconds for cmd prompt after issuing command";
        required = some "0";
        type = some "second";
        default = some "3";
        order = 200;
      },
    )
    ∷ (
      "power_timeout",
      record marker {
        getopt = ":";
        longopt = some "power-timeout";
        help = "--power-timeout=[seconds]      Test X seconds for status change after ON/OFF";
        required = some "0";
        type = some "second";
        default = some "20";
        order = 200;
      },
    )
    ∷ (
      "disable_timeout",
      record marker {
        getopt = ":";
        longopt = some "disable-timeout";
        help =
            "--disable-timeout=[true/false]     Disable timeout (true/false) (default: true when run from Pacemaker 2.0+)";
        required = some "0";
        order = 200;
      },
    )
    ∷ (
      "power_wait",
      record marker {
        getopt = ":";
        longopt = some "power-wait";
        help = "--power-wait=[seconds]         Wait X seconds after issuing ON/OFF";
        required = some "0";
        type = some "second";
        default = some "0";
        order = 200;
      },
    )
    ∷ (
      "stonith_status_sleep",
      record marker {
        getopt = ":";
        longopt = some "stonith-status-sleep";
        help =
            "--stonith-status-sleep=[seconds]   Sleep X seconds between status calls during a STONITH action";
        required = some "0";
        type = some "second";
        default = some "1";
        order = 200;
      },
    )
    ∷ (
      "missing_as_off",
      record marker {
        longopt = some "missing-as-off";
        help = "--missing-as-off               Missing port returns OFF instead of failure";
        required = some "0";
        order = 200;
      },
    )
    ∷ (
      "retry_on",
      record marker {
        getopt = ":";
        longopt = some "retry-on";
        help = "--retry-on=[attempts]          Count of attempts to retry power on";
        required = some "0";
        type = some "integer";
        default = some "1";
        order = 201;
      },
    )
    ∷ (
      "session_url",
      record marker {
        getopt = "s:";
        longopt = some "session-url";
        help = "-s, --session-url              URL to connect to XenServer on";
        required = some "1";
      },
    )
    ∷ (
      "sudo",
      record marker {
        longopt = some "use-sudo";
        help =
            "--use-sudo                     Use sudo (without password) when calling 3rd party software";
        required = some "0";
        order = 205;
      },
    )
    ∷ (
      "method",
      record marker {
        getopt = "m:";
        longopt = some "method";
        help = "-m, --method=[method]          Method to fence (onoff|cycle) (Default: onoff)";
        required = some "0";
        shortdesc = some "Method to fence";
        default = some "onoff";
        choices = some ("onoff" ∷ "cycle" ∷ []);
      },
    )
    ∷ []
