-- ===== src/Examples/Launching.antt =====
-- The unit tests of src/access_point_ctl/process_hdl.rs and
-- src/access_point_ctl/wifi_manager/hostapd_proc.rs, run on the model. The system starts every command
-- and its state is how many processes run; the mocks' state is the list of calls, the last one first.
use webcam_direct_linux.Prelude.{
  ℕ, suc, ◌-◌, ◌≡◌, refl, Bool, true, false, not, ◌&&◌, ◌||◌, Text, Bytes, codes, List, [], ◌∷◌,
  none, some, Result, ok, panic, anyhow, Exec, ◌==◌, ◌=?◌, list_key, number_key,
}
use webcam_direct_linux.AccessPoint.Process as Process
use webcam_direct_linux.AccessPoint.Process.{
  Command, Processes, ProcessHdl, ProcessHdlOps, handler, spawn, kill,
}
use webcam_direct_linux.AccessPoint.FileHdl.{FileHdlOps}
use webcam_direct_linux.AccessPoint.Hostapd
use webcam_direct_linux.AccessPoint.Hostapd.{WifiCredentials, hostap_config}
use webcam_direct_linux.Examples.Linking.{is_ok, is_err, fails_with}
use webcam_direct_linux.Examples.Controlling.{only_if}

abbrev os : Processes ℕ (Unit {0})
os = record {
  spawn = λ cmd n. (ok tt, suc n);
  kill = λ child n. (ok tt, n - 1);
  wait = λ child n. (ok tt, n);
}

abbrev echo : Command
echo = record { program = codes "echo"; args = codes "Hello, world!" ∷ [] }

abbrev sleep : Text → Command
sleep seconds = record { program = codes "sleep"; args = seconds ∷ [] }

abbrev has_child : ProcessHdl ℕ (Unit {0}) → Bool
has_child h = elim h.child_process [ none ↦ false | some child ↦ true ]

test_spawn_process : Bool
test_spawn_process = let (result, h) = spawn os echo (handler 0) in is_ok result && has_child h

test_spawn_process_already_exists : Bool
test_spawn_process_already_exists =
    let (first, h) = spawn os echo (handler 0) in
    is_ok first
    && fails_with (codes "Handler already has an associated process") (spawn os echo h).0

test_kill_process : Bool
test_kill_process =
    let (first, h) = spawn os (sleep (codes "1")) (handler 0) in
    let (result, k) = kill os h in is_ok first && has_child h && is_ok result && not (has_child k)

test_kill_no_process : Bool
test_kill_no_process = is_ok (kill os (handler 0)).0

test_drop_kills_process : Bool
test_drop_kills_process =
    let (first, h) = spawn os (sleep (codes "5")) (handler 0) in
    is_ok first && has_child h && ((Process.drop os h).world == 0)

process_hdl_tests :
    (test_spawn_process && test_spawn_process_already_exists && test_kill_process
      && test_kill_no_process && test_drop_kills_process)
    ≡ true
unfolding test_spawn_process test_spawn_process_already_exists test_kill_process
    test_kill_no_process test_drop_kills_process spawn kill handler Process.drop
process_hdl_tests = refl

-- `starts_with` and `contains` of a text.
begins : Text → Text → Bool
begins [] text = true
begins (c ∷ part) [] = false
begins (c ∷ part) (d ∷ text) = (c == d) && begins part text

contains : Text → Text → Bool
contains part [] = begins part []
contains part (d ∷ text) = begins part (d ∷ text) || contains part text

abbrev Calls : Type 0
Calls = List Text

abbrev called {ℓ} : {A : Type ℓ} → Text → Result A → Exec Calls A
called name r calls = (r, name ∷ calls)

abbrev mock_file_hdl : Result (Unit {0}) → (Bytes → Result (Unit {0})) → FileHdlOps Calls
mock_file_hdl opened written = record {
  open_file = called (codes "open") opened;
  write_data = λ bytes. called (codes "write_data") (written bytes);
  get_path = λ calls. codes "/tmp/hostapd.conf";
}

abbrev mock_process_hdl : (Command → Result (Unit {0})) → Result (Unit {0}) → ProcessHdlOps Calls
mock_process_hdl spawned killed = record {
  spawn = λ cmd. called (codes "spawn") (spawned cmd);
  kill = called (codes "kill") killed;
}

abbrev has_creds : Bytes → Bool
unfolding contains begins
has_creds config =
    contains (codes "ssid=test_ssid") config
    && contains (codes "wpa_passphrase=test_password") config

abbrev is_hostapd : Command → Bool
is_hostapd cmd = cmd.program =? codes "hostapd"

-- What `start` gives and the calls that it makes, the last one first.
abbrev started : FileHdlOps Calls → ProcessHdlOps Calls → Result (Unit {0}) × Calls
started file process =
    Hostapd.start file process (λ cmd calls. calls)
      (record { ssid = codes "test_ssid"; password = codes "test_password" }) (codes "wlan0")
      (codes "/var/run/hostapd") []

abbrev no_process : ProcessHdlOps Calls
no_process = mock_process_hdl (λ cmd. panic) panic

test_hostapd_proc_start : Bool
test_hostapd_proc_start =
    let (result, calls) =
      started (mock_file_hdl (ok tt) (λ config. only_if (has_creds config) (ok tt)))
        (mock_process_hdl (λ cmd. only_if (is_hostapd cmd) (ok tt)) panic) in
    is_ok result && (calls =? (codes "spawn" ∷ codes "write_data" ∷ codes "open" ∷ []))

test_hostapd_proc_start_fail_open : Bool
test_hostapd_proc_start_fail_open =
    let (result, calls) =
      started (mock_file_hdl (anyhow "Failed to open file") (λ config. panic)) no_process in
    is_err result && (calls =? (codes "open" ∷ []))

test_hostapd_proc_start_fail_write : Bool
test_hostapd_proc_start_fail_write =
    let (result, calls) =
      started (mock_file_hdl (ok tt) (λ config. anyhow "Failed to write data")) no_process in
    is_err result && (calls =? (codes "write_data" ∷ codes "open" ∷ []))

test_hostapd_proc_start_fail_spawn : Bool
test_hostapd_proc_start_fail_spawn =
    let (result, calls) =
      started (mock_file_hdl (ok tt) (λ config. only_if (has_creds config) (ok tt))) (
        mock_process_hdl (λ cmd. only_if (is_hostapd cmd) (anyhow "Failed to spawn process"))
          panic) in
    is_err result && (calls =? (codes "spawn" ∷ codes "write_data" ∷ codes "open" ∷ []))

test_hostapd_proc_stop : Bool
test_hostapd_proc_stop =
    let (result, calls) =
      Hostapd.stop (mock_file_hdl panic (λ config. panic)) (mock_process_hdl (λ cmd. panic) (ok tt))
        (λ cmd calls. calls) [] in
    is_ok result && (calls =? (codes "kill" ∷ []))

hostapd_proc_tests :
    (test_hostapd_proc_start && test_hostapd_proc_start_fail_open
      && test_hostapd_proc_start_fail_write && test_hostapd_proc_start_fail_spawn
      && test_hostapd_proc_stop)
    ≡ true
unfolding test_hostapd_proc_start test_hostapd_proc_start_fail_open
    test_hostapd_proc_start_fail_write test_hostapd_proc_start_fail_spawn test_hostapd_proc_stop
    Hostapd.start Hostapd.stop hostap_config contains begins
hostapd_proc_tests = refl
