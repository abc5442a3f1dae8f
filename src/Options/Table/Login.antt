-- ===== src/Options/Table/Login.antt =====
-- The entries of `all_opt` in lib/fencing.py.py from `passwd` to `vmware_datacenter`, in their order.
use fence_agents.Base.{[], ◌∷◌, some}
use fence_agents.Dict.{Dict}
use fence_agents.Options.Spec.{Spec, marker}

unfoldable pub login_options : Dict Spec
login_options =
    (
      "passwd",
      record marker {
        getopt = "p:";
        longopt = some "password";
        help = "-p, --password=[password]      Login password or passphrase";
        required = some "0";
      },
    )
    ∷ (
      "passwd_script",
      record marker {
        getopt = "S:";
        longopt = some "password-script";
        help = "-S, --password-script=[script] Script to run to retrieve password";
        required = some "0";
      },
    )
    ∷ (
      "identity_file",
      record marker {
        getopt = "k:";
        longopt = some "identity-file";
        help = "-k, --identity-file=[filename] Identity file (private key) for SSH";
        required = some "0";
      },
    )
    ∷ (
      "cmd_prompt",
      record marker {
        getopt = "c:";
        longopt = some "command-prompt";
        help = "-c, --command-prompt=[prompt]  Force Python regex for command prompt";
        required = some "0";
      },
    )
    ∷ (
      "secure",
      record marker {
        getopt = "x";
        longopt = some "ssh";
        help = "-x, --ssh                      Use SSH connection";
        required = some "0";
      },
    )
    ∷ (
      "ssh_options",
      record marker {
        getopt = ":";
        longopt = some "ssh-options";
        help = "--ssh-options=[options]        SSH options to use";
        required = some "0";
      },
    )
    ∷ (
      "ssl",
      record marker {
        getopt = "z";
        longopt = some "ssl";
        help = "-z, --ssl                      Use SSL connection with verifying certificate";
        required = some "0";
      },
    )
    ∷ (
      "ssl_insecure",
      record marker {
        longopt = some "ssl-insecure";
        help = "--ssl-insecure                 Use SSL connection without verifying certificate";
        required = some "0";
      },
    )
    ∷ (
      "ssl_secure",
      record marker {
        longopt = some "ssl-secure";
        help = "--ssl-secure                   Use SSL connection with verifying certificate";
        required = some "0";
      },
    )
    ∷ (
      "notls",
      record marker {
        getopt = "t";
        longopt = some "notls";
        help =
            "-t, --notls                    Disable TLS negotiation and force SSL3.0. This should only be used for devices that do not support TLS1.0 and up.";
        required = some "0";
      },
    )
    ∷ (
      "tls1.0",
      record marker {
        longopt = some "tls1.0";
        help =
            "--tls1.0                       Disable TLS negotiation and force TLS1.0. This should only be used for devices that do not support TLS1.1 and up.";
        required = some "0";
      },
    )
    ∷ (
      "port",
      record marker {
        getopt = "n:";
        longopt = some "plug";
        help =
            "-n, --plug=[id]                Physical plug number on device, UUID or identification of machine";
        required = some "1";
      },
    )
    ∷ (
      "switch",
      record marker {
        getopt = "s:";
        longopt = some "switch";
        help = "-s, --switch=[id]              Physical switch number on device";
        required = some "0";
      },
    )
    ∷ (
      "exec",
      record marker {
        getopt = "e:";
        longopt = some "exec";
        help = "-e, --exec=[command]           Command to execute";
        required = some "0";
      },
    )
    ∷ (
      "vmware_type",
      record marker {
        getopt = "d:";
        longopt = some "vmware_type";
        help = "-d, --vmware_type=[type]       Type of VMware to connect";
        required = some "0";
      },
    )
    ∷ (
      "vmware_datacenter",
      record marker {
        getopt = "s:";
        longopt = some "vmware-datacenter";
        help = "-s, --vmware-datacenter=[dc]   VMWare datacenter filter";
        required = some "0";
        order = 2;
      },
    )
    ∷ []
