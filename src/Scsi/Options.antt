-- ===== src/Scsi/Options.antt =====
-- `define_new_opts` of agents/scsi/fence_scsi.py, and the device options of its `main`.
use fence_agents.Base.{String, List, [], ◌∷◌, some}
use fence_agents.Dict
use fence_agents.Dict.{Dict}
use fence_agents.Options.Spec.{Spec, marker}

unfoldable pub new_opts : Dict Spec
new_opts =
    (
      "devices",
      record marker {
        getopt = "d:";
        longopt = some "devices";
        help = "-d, --devices=[devices]        List of devices to use for current operation";
        required = some "0";
        shortdesc =
            some
              "List of devices to use for current operation. Devices can be comma or space separated list of raw devices (eg. /dev/sdc). Each device must support SCSI-3 persistent reservations. Optional if cluster is configured with clvm or lvmlockd.";
      },
    )
    ∷ (
      "nodename",
      record marker {
        getopt = ":";
        longopt = some "nodename";
        required = some "0";
        shortdesc = some "";
      },
    )
    ∷ (
      "key",
      record marker {
        getopt = "k:";
        longopt = some "key";
        help = "-k, --key=[key]                Key to use for the current operation";
        required = some "0";
        shortdesc =
            some
              "Key to use for the current operation. This key should be unique to a node. For the \"on\" action, the key specifies the key use to register the local node. For the \"off\" action, this key specifies the key to be removed from the device(s).";
      },
    )
    ∷ (
      "aptpl",
      record marker {
        getopt = "a";
        longopt = some "aptpl";
        help = "-a, --aptpl                    Use the APTPL flag for registrations";
        required = some "0";
        shortdesc =
            some
              "Use the APTPL flag for registrations. This option is only used for the 'on' action.";
      },
    )
    ∷ (
      "mpath_register_method",
      record marker {
        getopt = ":";
        longopt = some "mpath-register-method";
        help =
            "--mpath-register-method=[multi|single]  Register key to all multipath sub devices (multi), or directly to the main multipath device (single).";
        required = some "0";
        shortdesc = some "Multipath register method (multi/single).";
        default = some "multi";
        order = 3;
      },
    )
    ∷ (
      "readonly",
      record marker {
        longopt = some "readonly";
        help =
            "--readonly                     Open DEVICE read-only. May be useful with PRIN commands if there are unwanted side effects with the default read-write open.";
        required = some "0";
        shortdesc = some "Open DEVICE read-only.";
        order = 4;
      },
    )
    ∷ (
      "suppress-errors",
      record marker {
        longopt = some "suppress-errors";
        help =
            "--suppress-errors              Suppress error log. Suppresses error logging when run from the watchdog service before pacemaker starts.";
        required = some "0";
        shortdesc = some "Error log suppression.";
        order = 5;
      },
    )
    ∷ (
      "logfile",
      record marker {
        getopt = ":";
        longopt = some "logfile";
        help = "-f, --logfile                  Log output (stdout and stderr) to file";
        required = some "0";
        shortdesc = some "Log output (stdout and stderr) to file";
        order = 6;
      },
    )
    ∷ (
      "corosync_cmap_path",
      record marker {
        getopt = ":";
        longopt = some "corosync-cmap-path";
        help = "--corosync-cmap-path=[path]    Path to corosync-cmapctl binary";
        required = some "0";
        shortdesc = some "Path to corosync-cmapctl binary";
        default = some "@COROSYNC_CMAPCTL_PATH@";
        order = 300;
      },
    )
    ∷ (
      "sg_persist_path",
      record marker {
        getopt = ":";
        longopt = some "sg_persist-path";
        help = "--sg_persist-path=[path]       Path to sg_persist binary";
        required = some "0";
        shortdesc = some "Path to sg_persist binary";
        default = some "@SG_PERSIST_PATH@";
        order = 300;
      },
    )
    ∷ (
      "sg_turs_path",
      record marker {
        getopt = ":";
        longopt = some "sg_turs-path";
        help = "--sg_turs-path=[path]          Path to sg_turs binary";
        required = some "0";
        shortdesc = some "Path to sg_turs binary";
        default = some "@SG_TURS_PATH@";
        order = 300;
      },
    )
    ∷ (
      "vgs_path",
      record marker {
        getopt = ":";
        longopt = some "vgs-path";
        help = "--vgs-path=[path]              Path to vgs binary";
        required = some "0";
        shortdesc = some "Path to vgs binary";
        default = some "@VGS_PATH@";
        order = 300;
      },
    )
    ∷ (
      "key_value",
      record marker {
        getopt = ":";
        longopt = some "key-value";
        help = "--key-value=<id|hash>          SCSI key node generation method";
        required = some "0";
        shortdesc =
            some
              "Method used to generate the SCSI key. \"id\" (default) uses the positional ID from \"corosync-cmactl nodelist\" output which can get inconsistent when nodes are removed from cluster without full cluster restart. \"hash\" uses part of hash made out of node names which is not affected over time but there is theoretical chance that hashes can collide as size of SCSI key is quite limited.";
        default = some "id";
        order = 300;
      },
    )
    ∷ []

abbrev pub scsi_device_opt : List String
scsi_device_opt =
    "no_login" ∷ "no_password" ∷ "devices" ∷ "nodename" ∷ "port" ∷ "no_port" ∷ "key" ∷ "aptpl"
    ∷ "fabric_fencing" ∷ "on_target" ∷ "corosync_cmap_path" ∷ "sg_persist_path" ∷ "sg_turs_path"
    ∷ "mpath_register_method" ∷ "readonly" ∷ "suppress-errors" ∷ "logfile" ∷ "vgs_path" ∷ "force_on"
    ∷ "key_value" ∷ []

-- all_opt[key] = entry, one after another
unfoldable pub put_all : Dict Spec → Dict Spec → Dict Spec
put_all table [] = table
put_all table ((key, spec) ∷ entries) = put_all (Dict.put table key spec) entries

-- define_new_opts(), on the table that is there
unfoldable pub define_new_opts : Dict Spec → Dict Spec
unfolding put_all new_opts
define_new_opts table = put_all table new_opts
