-- ===== src/Mpath/Options.antt =====
-- `define_new_opts` of agents/mpath/fence_mpath.py, and the device options of its `main`.
use fence_agents.Base.{String, List, [], ◌∷◌, some}
use fence_agents.Dict.{Dict}
use fence_agents.Options.Spec.{Spec, marker}
use fence_agents.Scsi.Options.{put_all}

unfoldable pub new_opts : Dict Spec
new_opts =
    (
      "devices",
      record marker {
        getopt = "d:";
        longopt = some "devices";
        help = "-d, --devices=[devices]        List of devices to use for current operation";
        required = some "0";
        shortdesc =
            some
              "List of devices to use for current operation. Devices can be comma or space separated list of device-mapper multipath devices (eg. /dev/mapper/3600508b400105df70000e00000ac0000 or /dev/mapper/mpath1). Each device must support SCSI-3 persistent reservations.";
      },
    )
    ∷ (
      "key",
      record marker {
        getopt = "k:";
        longopt = some "key";
        help = "-k, --key=[key]                Replaced by -n, --plug";
        required = some "0";
        shortdesc = some "Replaced by port/-n/--plug";
      },
    )
    ∷ (
      "suppress-errors",
      record marker {
        longopt = some "suppress-errors";
        help =
            "--suppress-errors              Suppress error log. Suppresses error logging when run from the watchdog service before pacemaker starts.";
        required = some "0";
        shortdesc = some "Error log suppression.";
        order = 4;
      },
    )
    ∷ (
      "mpathpersist_path",
      record marker {
        getopt = ":";
        longopt = some "mpathpersist-path";
        help = "--mpathpersist-path=[path]     Path to mpathpersist binary";
        required = some "0";
        shortdesc = some "Path to mpathpersist binary";
        default = some "@MPATH_PATH@";
        order = 200;
      },
    )
    ∷ (
      "store_path",
      record marker {
        getopt = ":";
        longopt = some "store-path";
        help = "--store-path=[path]            Path to directory containing cached keys";
        required = some "0";
        shortdesc = some "Path to directory where fence agent can store information";
        default = some "@STORE_PATH@";
        order = 200;
      },
    )
    ∷ []

abbrev pub mpath_device_opt : List String
mpath_device_opt =
    "no_login" ∷ "no_password" ∷ "devices" ∷ "key" ∷ "sudo" ∷ "fabric_fencing" ∷ "on_target"
    ∷ "store_path" ∷ "suppress-errors" ∷ "mpathpersist_path" ∷ "force_on" ∷ "port" ∷ "no_port" ∷ []

-- define_new_opts(), on the table that is there
unfoldable pub define_new_opts : Dict Spec → Dict Spec
unfolding put_all new_opts
define_new_opts table = put_all table new_opts
