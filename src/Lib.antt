-- ===== src/Lib.antt =====
-- The fence agents of ClusterLabs: the library that every agent is built on, lib/fencing.py.py, the
-- agents for SCSI reservations, agents/scsi/fence_scsi.py and agents/mpath/fence_mpath.py, the agent for
-- messages on shared disks, agents/sbd/fence_sbd.py, and the library for SNMP, lib/fencing_snmp.py.py,
-- with one of its agents, agents/apc_snmp/fence_apc_snmp.py.
--
-- An agent gives the library functions that read and set the power of one plug of its device. The
-- library parses the options, fills in defaults and checks them, and `fence_action` runs the action
-- asked for (on, off, reboot, status, monitor, list) over all plugs. A cluster takes an exit status 0
-- for the proof that a node is off, so what it means that a run returns 0 is the centre of this
-- development.
--
-- Files and code (in lib/fencing.py.py where nothing else is said):
-- - Options/Spec, Options/Table and its children: the entries of `all_opt`.
-- - Options/Actions: `_get_available_actions`.
-- - Options/Dependency, Options/Closure: DEPENDENCY_OPT and `_add_dependency_options`, whose change of
--   the help text of "port" is in `extend_device_opt` of Options/Metadata.
-- - Options/Defaults and its children: `_set_default_values`.
-- - Options/Validate and its children: `_validate_input` and the two functions that it calls.
-- - Options/Metadata: `_update_metadata`, `_join2`, `_join_wrap`.
-- - Options/Check and its children: `check_input`.
-- - Options/Stdin and Options/CommandLine with their children: `process_input`, `_parse_input_stdin`,
--   `_parse_input_cmdline`, `_verify_unique_getopt`, `_prepare_getopt_args`.
-- - Metadata and its children: `_encode_html_entities`, `usage`, `metadata` and `show_docs`.
-- - Failure: the error codes, `fail` and `fail_usage`.
-- - Power and its children: `get_multi_power_fn`, `async_set_multi_power_fn`,
--   `sync_set_multi_power_fn`, `set_multi_power_fn`, `multi_reboot_cycle_fn`.
-- - Action and its children: `fence_action`.
-- - Delay and its children: `run_delay`.
-- - Commands and its children: `run_commands`. Asked, Settled and Quorate are about when it stops waiting, Ending
--   about that it does.
-- - Scsi and its children: agents/scsi/fence_scsi.py. Status has `get_status` and `set_status`, Monitor
--   `do_action_monitor`, Key `generate_key` and `get_shared_devices`, Check `scsi_check`, Main `main`.
-- - Mpath and its children: agents/mpath/fence_mpath.py, in the same order. Registry is the abstract view
--   of its devices, Tool says what the machine has to do for it, and Refinement and Fencing compare the
--   code with it.
-- - Sbd and its children: agents/sbd/fence_sbd.py. Slots has `get_node_list` and `get_power_status`,
--   Device `check_sbd_device` and `sbd_daemon_is_running`, Timeouts `get_sbd_header_timeout` and
--   `get_crashdump_timeout`, Main `main`.
-- - Snmp, Snmp/Quote: lib/fencing_snmp.py.py. Snmp/Apc and its children: agents/apc_snmp/fence_apc_snmp.py.
-- - Watchdog and its children: the loop that `scsi_check` and `mpath_check` share, and the settings that
--   both read.
-- - Process: what a `main` has of its process, and the first steps that both have.
-- Device is a power switch for the tests, which are in the modules named Tests. Base, Text, Dict, Exec
-- and State carry what the code uses of Python: numbers and texts, dictionaries, exceptions, and the
-- state of a run.
--
-- State and effects. A run is a function on a `State`: the `options` dictionary, the two entries of it
-- that hold lists ("device_opt" and "--plugs") as fields of their own, the global `all_opt`, the lines
-- printed and logged, and the world outside, of any type. A function returns, raises an exception,
-- leaves by `sys.exit`, or runs out of rounds, and the state comes back in every case. `SystemExit` is
-- no `Exception`, so it passes the `except` clauses. The agent's functions are parameters that may
-- change the state in any way; the `connection` argument, which the library only passes on, is left out,
-- since the functions are closed over it. What the library takes from the operating system is a
-- parameter too (`System`): the passing of time, files, `os.popen` and the environment. So are
-- `getopt.gnu_getopt` and the `wrap` method of a `TextWrapper`.
--
-- Fuel. The polling loop of `async_set_multi_power_fn` has no bound of its own, and "--power-timeout"
-- zero makes it endless. It runs on a number of rounds, and a run that exceeds it gives `diverged`,
-- which is neither a result nor an exception. With a positive "--power-timeout" as many rounds as that
-- are enough. `get_mpath_slaves` and `register_dev` of fence_scsi follow the tree of multipath devices,
-- as deep as the number that they are given. The loop of `run_commands` goes through rounds too, each of
-- which waits or finds that the limit has passed. Every other loop is over a list or a range.
--
-- Texts are those of ASCII where the case of letters, white space and digits matter: `lower`, `upper`,
-- `strip` and `int` treat other characters as they treat an unknown one. The keys of outlets are texts.
-- The text of an exception that the library itself does not make is empty.
--
-- Numbers. Clocks count in equal parts of a second, as many as one likes, where Python has a float, and
-- `float` is read exactly from digits with a decimal point or without one. The exit status that a
-- watchdog check is called to repair is taken to its low eight bits, as the operating system does.
--
-- Not modelled: the sessions over ssh, telnet and ssl (pexpect), the thread of `run_command`, the log
-- handlers, and the agents but for fence_scsi, fence_mpath, fence_sbd and fence_apc_snmp; what the others
-- promise is a parameter. So is what those four run and their files (`Host`, `Launcher`, `Node` and
-- `Shell`, and `Machine` for the watchdog), and the MD5 hash. A set of processes is a list in the order in
-- which they are started or end; the order that Python takes matters only for which exit code of several
-- that are not 0 is handed over. A device name, a node name or a key stands for itself where the code
-- uses it as a regular expression. The lines of files and of output end by a newline.
pub mod Base
pub mod Text
pub mod Dict
pub mod Exec
pub mod Options
pub mod State
pub mod Failure
pub mod Metadata
pub mod Power
pub mod Action
pub mod Scsi
pub mod Mpath
pub mod Watchdog
pub mod Delay
pub mod Process
pub mod Device
pub mod Commands
pub mod Sbd
pub mod Snmp
