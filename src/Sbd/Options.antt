-- ===== src/Sbd/Options.antt =====
-- `define_new_opts` of agents/sbd/fence_sbd.py, and the device options of its `main`.
use fence_agents.Base.{String, List, [], ◌∷◌, some}
use fence_agents.Dict.{Dict}
use fence_agents.Options.Spec.{Spec, marker}
use fence_agents.Scsi.Options.{put_all}

unfoldable pub new_opts : Dict Spec
new_opts =
    (
      "devices",
      record marker {
        getopt = ":";
        longopt = some "devices";
        help = "--devices=[device_a,device_b] Comma separated list of sbd devices";
        required = some "0";
        shortdesc = some "SBD Device";
      },
    )
    ∷ (
      "sbd_path",
      record marker {
        getopt = ":";
        longopt = some "sbd-path";
        help = "--sbd-path=[path]              Path to SBD binary";
        required = some "0";
        default = some "@SBD_PATH@";
        order = 200;
      },
    )
    ∷ (
      "crashdump",
      record marker {
        longopt = some "crashdump";
        help = "--crashdump                    Enable crashdump, default is disabled";
        required = some "0";
        shortdesc = some "Crashdump instead of regular fence";
        order = 201;
      },
    )
    ∷ []

abbrev pub sbd_device_opt : List String
sbd_device_opt = "no_password" ∷ "devices" ∷ "port" ∷ "method" ∷ "sbd_path" ∷ "crashdump" ∷ []

-- define_new_opts(), on the table that is there
unfoldable pub define_new_opts : Dict Spec → Dict Spec
unfolding put_all new_opts
define_new_opts table = put_all table new_opts
