-- ===== src/Lib.antt =====
-- Verification of AbrekMouse: the HID++ client, the table of Logitech receivers, the configuration,
-- the daemon's handling of profiles, pushes and latencies, and the profile commands of the command
-- line.
--
-- The client (src/logitech_hidpp.cpp, the class HidppTransport and the functions around it) speaks
-- HID++ 1.0 and 2.0 with a mouse or a receiver over a hidraw node. It sends requests, waits for the
-- report that echoes them, keeps notifications that arrive meanwhile, resolves features to dynamic
-- indices, and reads and writes DPI, report rate, battery, pairing, on-board profiles and more. The
-- daemon, the command line and the graphical interface call it. The daemon (daemon/daemon.cpp)
-- applies a profile of the configuration (src/config.cpp) to each open mouse, by device and by the
-- focused application, and takes whole configurations over a socket. The command line
-- (cli/main.cpp) edits the profiles in the file and pushes the result to the daemon.
--
-- Pure parts of the client, one module to a part:
--   Hidpp.Bytes         bytes, flag bits, big-endian words, strings out of a payload
--   Hidpp.Packet        hidpp_short_packet, hidpp_long_packet, hidpp_very_long_packet: to_bytes,
--                       from_bytes; is_hidpp_error, normalize_function_id
--   Hidpp.Rate          rate_code_to_hz, hz_to_rate_code
--   Hidpp.Dpi           decode_dpi_levels
--   Hidpp.Battery       the five battery parsers and battery_info_from_voltage
--   Hidpp.Notification  hidpp_notification::from_bytes
--   Hidpp.Features      feature names, and the lookups of hidpp_device
--   Hidpp.Event         classify_hidpp_notification
--   Hidpp.Records       feature metadata, firmware records, pairing records
--   Receiver            src/logitech_receiver.cpp: the product table and the discovery
-- The transport, whose methods are functions from a state to a result and the next state
-- (Hidpp.Transport.Monad):
--   State      the object, read_packet, write_packet, next_sw_id, and the waiting loop
--   Request    send_feature_request, resolve_feature_index, send_short, send_long, send_very_long,
--              feature_request
--   Register   read_register, write_register, probe_hidpp10
--   Notify     receive_notification, drain_notifications, drain_hidpp_notifications
--   Discovery  get_feature_metadata, get_feature_set, supports_feature
--   Info, Battery, Pairing, Controls      the queries of the same names
--   Dpi, Rate, Onboard                    the settings
--   Identify   identify_logitech_devices, identify_logitech_device, the destructor's restore
-- Proofs: Waiting, Answers, Replies, Effects, Cache, Sectors, Writing and Drain below
-- Hidpp.Transport, and a child of each pure module. Tests holds concrete runs.
--
-- The configuration (src/config.cpp, include/rawaccel-base.hpp):
--   Config.Model     app_config, device_profile, device_config, and the constants
--   Config.Numbers   the operations on double and float, an interface with few laws
--   Config.Accel     accel_args, speed_args, profile, and the names of modes
--   Config.Sanitize  sanitize_device_config, sort_lut_data, sanitize_accel_args, sanitize_profile
--   Config.Migrate   migrate_lookup_gain, migrate_config, save_config with the version in
--                    app_config_to_json_obj
--   Config.Version   version_lt
-- The daemon (daemon/daemon.cpp):
--   Daemon.Profiles  ascii_icontains, profile_matches_app, find_profile, set_active_app
--   Daemon.Focus     apply_active_app with release_device
--   Daemon.Push      push_config, save_worker and the slot of run_loop, as steps of three threads
--   Daemon.JsonStr   json_str, judged by the JSON reader in Daemon.JsonStr.Reader
--   Daemon.Deny      deny_reopen, reopen_denied, prune_path_deny, prune_dev_deny
--   Daemon.Latency   lat_stats of daemon/lat_stats.hpp, with its percentiles
-- The command line (cli/main.cpp):
--   Cli.Profiles     cmd_set, cmd_create, cmd_delete, cmd_duplicate, cmd_rename
-- Daemon.Focus works on the records of Config.Model; the settings inside a profile are a parameter
-- there, since that code passes them on unread. Cli.Profiles stores what save_config of
-- Config.Migrate makes of the configuration.
--
-- The kernel and the device are a script in the state: for each write the results of write and
-- poll, for each round of a wait the results of poll and read, and the answers of the clock to the
-- budget checks. The frames written are recorded, the last one first. The two mutexes serialise
-- the methods, so a method is one function. Timeouts are not numbers here: a script says in which
-- round a deadline passes, and a script that ends stands for silence until the deadline. In
-- Daemon.Push each lock scope of the save worker and of the main loop is one step, a push is one
-- step, and a run is any list of steps. In the command line a save and a push succeed or fail as an
-- argument says.
--
-- Numbers are natural numbers, and every cast to 8 or 16 bits is written out. An int of the
-- configuration is an integer without bounds, since it is only compared and clamped. Texts are
-- lists of bytes. The battery curve is computed in double precision in the source and in integers
-- here; both give the same percentage for each of the 65536 voltages. The loop over a flash sector
-- runs on fuel: a sector has at most 4096 bytes, so 257 rounds of 16 bytes are enough. The waiting
-- loops recur on the script, and all other loops on the source's own bounds.
--
-- The headers logitech_hidpp.hpp and config.hpp are not among the sources. The values of
-- hidpp_feature_index, the default argument of the target and the defaults of the structs are
-- therefore the parameters Hidpp.Features.FeatureIds and Hidpp.Header, and the ceilings of the
-- settings are Config.Accel.Limits. HIDPP_SHORT_PAYLOAD_MAX is 16 and
-- HIDPP_ONBOARD_SECTOR_DATA_CHUNK is 14, as the notes of the repository give them. The reader and
-- the writer of a pushed configuration and the hash of its text are parameters of Daemon.Push, and
-- the arithmetic of double is one of Config (Numbers) and of Daemon.Latency (Micros). Not modelled:
-- the opening of hidraw nodes, the file lock around a request, the backend that tests inject in
-- place of the file, the sysfs lookups of names, the JSON form of a configuration and its file, the
-- daemon's event loop and devices, the other commands, the graphical interface, the installer, and
-- the floating-point acceleration.
pub mod Prelude
pub mod Receiver
pub mod Hidpp
pub mod Config
pub mod Daemon
pub mod Cli
pub mod Tests
