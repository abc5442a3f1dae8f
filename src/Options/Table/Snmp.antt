-- ===== src/Options/Table/Snmp.antt =====
-- The entries of `all_opt` in lib/fencing.py.py from `snmp_version` to `separator`, in their order.
use fence_agents.Base.{[], ◌∷◌, some}
use fence_agents.Dict.{Dict}
use fence_agents.Options.Spec.{Spec, marker}

unfoldable pub snmp_options : Dict Spec
snmp_options =
    (
      "snmp_version",
      record marker {
        getopt = "d:";
        longopt = some "snmp-version";
        help = "-d, --snmp-version=[version]   Specifies SNMP version to use (1|2c|3)";
        required = some "0";
        shortdesc = some "Specifies SNMP version to use";
        choices = some ("1" ∷ "2c" ∷ "3" ∷ []);
      },
    )
    ∷ (
      "community",
      record marker {
        getopt = "c:";
        longopt = some "community";
        help = "-c, --community=[community]    Set the community string";
        required = some "0";
      },
    )
    ∷ (
      "snmp_auth_prot",
      record marker {
        getopt = "b:";
        longopt = some "snmp-auth-prot";
        help = "-b, --snmp-auth-prot=[prot]    Set authentication protocol (MD5|SHA)";
        required = some "0";
        shortdesc = some "Set authentication protocol";
        choices = some ("MD5" ∷ "SHA" ∷ []);
      },
    )
    ∷ (
      "snmp_sec_level",
      record marker {
        getopt = "E:";
        longopt = some "snmp-sec-level";
        help =
            "-E, --snmp-sec-level=[level]   Set security level (noAuthNoPriv|authNoPriv|authPriv)";
        required = some "0";
        shortdesc = some "Set security level";
        choices = some ("noAuthNoPriv" ∷ "authNoPriv" ∷ "authPriv" ∷ []);
      },
    )
    ∷ (
      "snmp_priv_prot",
      record marker {
        getopt = "B:";
        longopt = some "snmp-priv-prot";
        help = "-B, --snmp-priv-prot=[prot]    Set privacy protocol (DES|AES)";
        required = some "0";
        shortdesc = some "Set privacy protocol";
        choices = some ("DES" ∷ "AES" ∷ []);
      },
    )
    ∷ (
      "snmp_priv_passwd",
      record marker {
        getopt = "P:";
        longopt = some "snmp-priv-passwd";
        help = "-P, --snmp-priv-passwd=[pass]  Set privacy protocol password";
        required = some "0";
      },
    )
    ∷ (
      "snmp_priv_passwd_script",
      record marker {
        getopt = "R:";
        longopt = some "snmp-priv-passwd-script";
        help = "-R, --snmp-priv-passwd-script  Script to run to retrieve privacy password";
        required = some "0";
      },
    )
    ∷ (
      "inet4_only",
      record marker {
        getopt = "4";
        longopt = some "inet4-only";
        help = "-4, --inet4-only               Forces agent to use IPv4 addresses only";
        required = some "0";
      },
    )
    ∷ (
      "inet6_only",
      record marker {
        getopt = "6";
        longopt = some "inet6-only";
        help = "-6, --inet6-only               Forces agent to use IPv6 addresses only";
        required = some "0";
      },
    )
    ∷ (
      "plug_separator",
      record marker {
        getopt = ":";
        longopt = some "plug-separator";
        help =
            "--plug-separator=[char]        Separator for plug parameter when specifying more than 1 plug";
        required = some "0";
        default = some ",";
        order = 100;
      },
    )
    ∷ (
      "separator",
      record marker {
        getopt = "C:";
        longopt = some "separator";
        help = "-C, --separator=[char]         Separator for CSV created by 'list' operation";
        required = some "0";
        default = some ",";
        order = 100;
      },
    )
    ∷ []
