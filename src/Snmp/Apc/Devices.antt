-- ===== src/Snmp/Apc/Devices.antt =====
-- The classes of agents/apc_snmp/fence_apc_snmp.py for the devices.
use fence_agents.Base.{String, Bool, true, false, Option, none, some, [], ◌∷◌}
use fence_agents.Base.Int.{ℤ, pos}
use fence_agents.Dict.{Dict}

-- The classes that describe the devices. The texts of `status_oid` and `control_oid` are those in front
-- of the first "%d", and with switches ".1." stands between the two numbers.
pub record Device : Type 0 where
  pub status_oid : String
  pub control_oid : String
  pub outlet_table_oid : String
  pub state_on : ℤ
  pub turn_on : ℤ
  pub turn_off : ℤ
  pub has_switches : Bool

abbrev pub tripplite_pdu : Device
tripplite_pdu = record {
  status_oid = ".1.3.6.1.4.1.850.10.2.3.5.1.2.1.";
  control_oid = ".1.3.6.1.4.1.850.10.2.3.5.1.4.1.";
  outlet_table_oid = ".1.3.6.1.4.1.850.10.2.3.5.1.5";
  state_on = pos 2;
  turn_on = pos 2;
  turn_off = pos 1;
  has_switches = false;
}

abbrev pub tripplite_lx_pdu : Device
tripplite_lx_pdu = record {
  status_oid = ".1.3.6.1.4.1.850.1.1.3.2.3.3.1.1.4.1.";
  control_oid = ".1.3.6.1.4.1.850.1.1.3.2.3.3.1.1.6.1.";
  outlet_table_oid = ".1.3.6.1.4.1.850.1.1.3.2.3.3.1.1.2.1";
  state_on = pos 2;
  turn_on = pos 2;
  turn_off = pos 1;
  has_switches = false;
}

abbrev pub apc_rpdu : Device
apc_rpdu = record {
  status_oid = ".1.3.6.1.4.1.318.1.1.12.3.5.1.1.4.";
  control_oid = ".1.3.6.1.4.1.318.1.1.12.3.3.1.1.4.";
  outlet_table_oid = ".1.3.6.1.4.1.318.1.1.12.3.5.1.1.2";
  state_on = pos 1;
  turn_on = pos 1;
  turn_off = pos 2;
  has_switches = false;
}

abbrev pub apc_msp : Device
apc_msp = record {
  status_oid = ".1.3.6.1.4.1.318.1.1.6.7.1.1.5.";
  control_oid = ".1.3.6.1.4.1.318.1.1.6.5.1.1.5.";
  outlet_table_oid = ".1.3.6.1.4.1.318.1.1.6.7.1.1.4";
  state_on = pos 1;
  turn_on = pos 1;
  turn_off = pos 3;
  has_switches = true;
}

abbrev pub apc_ms : Device
apc_ms = record {
  status_oid = ".1.3.6.1.4.1.318.1.1.4.4.2.1.3.";
  control_oid = ".1.3.6.1.4.1.318.1.1.4.4.2.1.3.";
  outlet_table_oid = ".1.3.6.1.4.1.318.1.1.4.4.2.1.4";
  state_on = pos 1;
  turn_on = pos 1;
  turn_off = pos 2;
  has_switches = false;
}

abbrev pub apc_ms6 : Device
apc_ms6 = record {
  status_oid = ".1.3.6.1.4.1.318.1.1.4.4.2.1.3.";
  control_oid = ".1.3.6.1.4.1.318.1.1.12.3.3.1.1.4.";
  outlet_table_oid = "1.3.6.1.4.1.318.1.1.4.4.2.1.4";
  state_on = pos 1;
  turn_on = pos 1;
  turn_off = pos 2;
  has_switches = false;
}

abbrev pub agents_dir : Dict Device
agents_dir =
    (".1.3.6.1.4.1.318.1.3.4.5", apc_rpdu)
    ∷ (".1.3.6.1.4.1.318.1.3.4.4", apc_msp)
    ∷ (".1.3.6.1.4.1.850.1", tripplite_pdu)
    ∷ (".1.3.6.1.4.1.850.1.1.1", tripplite_lx_pdu)
    ∷ (".1.3.6.1.4.1.318.1.3.4.6", apc_ms6)
    ∷ []

-- the device for its identifier, and the oldest one where there is none
unfoldable pub device_or_oldest : Option Device → Device
device_or_oldest none = apc_ms
device_or_oldest (some device) = device
