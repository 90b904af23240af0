-- ===== src/Examples/Linking.antt =====
-- The unit tests of src/access_point_ctl/dhcp_server, ip_range.rs and mod.rs, run on the model. A mock's method is what it is expected to return; a call that is
-- not expected, or has other arguments, panics.
use webcam_direct_linux.Prelude.{
  ◌≡◌, refl, Bool, true, false, ◌&&◌, Text, codes, List, [], ◌∷◌, Result, ok, err, panic, anyhow,
  ◌=?◌, list_key, number_key, if◌then◌else◌,
}
use webcam_direct_linux.AccessPoint.IpRange
use webcam_direct_linux.AccessPoint.IpRange.{
  DhcpIpRange, check, from_str, from_parts, split_dots, octet, decimal, get_router_ip, get_start_ip,
  get_end_ip,
}
use webcam_direct_linux.AccessPoint.Process.{Command, ProcessHdlOps}
use webcam_direct_linux.AccessPoint.Dhcp
use webcam_direct_linux.AccessPoint.Dhcp.{dnsmasq}

-- A panic is neither.
abbrev pub is_ok {ℓ} : {A : Type ℓ} → Result A → Bool
is_ok (ok a) = true
is_ok _ = false

abbrev pub is_err {ℓ} : {A : Type ℓ} → Result A → Bool
is_err (err e) = true
is_err _ = false

-- `result.unwrap_err().to_string()`.
abbrev pub fails_with {ℓ} : {A : Type ℓ} → Text → Result A → Bool
fails_with message (err e) = e =? message
fails_with message _ = false

abbrev gives : Text → Result Text → Bool
gives text (ok t) = t =? text
gives text _ = false

-- The range from one last octet to another.
abbrev pub range : Text → Text → Result DhcpIpRange
range first last = IpRange.new first last

test_new_valid_range : Bool
test_new_valid_range = is_ok (range (codes "192.168.1.10") (codes "192.168.1.20"))

test_new_invalid_start_ip : Bool
test_new_invalid_start_ip = is_err (range (codes "192.168.1.0") (codes "192.168.1.20"))

test_new_invalid_end_ip : Bool
test_new_invalid_end_ip = is_err (range (codes "192.168.1.10") (codes "192.168.1.255"))

test_new_router_ip : Bool
test_new_router_ip = is_err (range (codes "192.168.1.1") (codes "192.168.1.20"))

test_new_different_subnets : Bool
test_new_different_subnets = is_err (range (codes "192.168.1.10") (codes "192.168.2.20"))

test_new_start_greater_than_end : Bool
test_new_start_greater_than_end = is_err (range (codes "192.168.1.20") (codes "192.168.1.10"))

test_new_invalid_ip_format : Bool
test_new_invalid_ip_format = is_err (range (codes "192.168.1.abc") (codes "192.168.1.20"))

test_new_invalid_end_ip_format : Bool
test_new_invalid_end_ip_format = is_err (range (codes "192.168.1.4") (codes "192.168.1.abc"))

-- What is asked of the range that `new` gives, which is unwrapped.
abbrev pub with_range : Result DhcpIpRange → (DhcpIpRange → Bool) → Bool
with_range (ok r) f = f r
with_range _ f = false

test_get_interface_ip : Bool
test_get_interface_ip =
    with_range (range (codes "192.168.1.10") (codes "192.168.1.20"))
      (λ r. gives (codes "192.168.1.1") (get_router_ip r))

test_get_start_ip : Bool
test_get_start_ip =
    with_range (range (codes "192.168.1.10") (codes "192.168.1.20"))
      (λ r. get_start_ip r =? codes "192.168.1.10")

test_get_end_ip : Bool
test_get_end_ip =
    with_range (range (codes "192.168.1.10") (codes "192.168.1.20"))
      (λ r. get_end_ip r =? codes "192.168.1.20")

ip_range_tests :
    (test_new_valid_range && test_new_invalid_start_ip && test_new_invalid_end_ip
      && test_new_router_ip && test_new_different_subnets && test_new_start_greater_than_end
      && test_new_invalid_ip_format && test_new_invalid_end_ip_format && test_get_interface_ip
      && test_get_start_ip && test_get_end_ip)
    ≡ true
unfolding test_new_valid_range test_new_invalid_start_ip test_new_invalid_end_ip test_new_router_ip
    test_new_different_subnets test_new_start_greater_than_end test_new_invalid_ip_format
    test_new_invalid_end_ip_format test_get_interface_ip test_get_start_ip test_get_end_ip
    IpRange.new check from_str from_parts split_dots octet decimal get_router_ip get_start_ip
    get_end_ip
ip_range_tests = refl

-- A mock of the process handler, with no state.
abbrev MockProcess : Type 0
MockProcess = ProcessHdlOps (Unit {0})

abbrev mock_process : (Command → Result (Unit {0})) → Result (Unit {0}) → MockProcess
mock_process spawn kill = record { spawn = λ cmd s. (spawn cmd, s); kill = λ s. (kill, s) }

abbrev expected_args : List Text
expected_args =
    codes "-p"
    ∷ codes "0"
    ∷ codes "-i"
    ∷ codes "test_interface"
    ∷ codes "-F"
    ∷ codes "192.168.1.100,192.168.1.200"
    ∷ codes "-n"
    ∷ codes "-d"
    ∷ []

abbrev started : MockProcess → Text → (Result (Unit {0}) → Bool) → Bool
started process iw_name f =
    with_range (range (codes "192.168.1.100") (codes "192.168.1.200"))
      (λ ip_range. f (Dhcp.start process iw_name ip_range tt).0)

test_start_dnsmasq : Bool
test_start_dnsmasq =
    started
      (mock_process
        (λ cmd.
          if (cmd.program =? codes "dnsmasq") && (cmd.args =? expected_args) then ok tt else panic)
        panic)
      (codes "test_interface") is_ok

test_start_dnsmasq_spawn_fails : Bool
test_start_dnsmasq_spawn_fails =
    started (mock_process (λ cmd. anyhow "Failed to spawn process") panic) (codes "test_interface")
      (fails_with (codes "Failed to spawn process"))

test_stop_dnsmasq : Bool
test_stop_dnsmasq = is_ok (Dhcp.stop (mock_process (λ cmd. panic) (ok tt)) tt).0

test_stop_dnsmasq_kill_fails : Bool
test_stop_dnsmasq_kill_fails =
    fails_with (codes "Failed to kill process")
      (Dhcp.stop (mock_process (λ cmd. panic) (anyhow "Failed to kill process")) tt).0

test_start_dnsmasq_empty_interface : Bool
test_start_dnsmasq_empty_interface =
    started (mock_process (λ cmd. panic) panic) [] (fails_with (codes "Invalid interface name"))

dhcp_server_tests :
    (test_start_dnsmasq && test_start_dnsmasq_spawn_fails && test_stop_dnsmasq
      && test_stop_dnsmasq_kill_fails && test_start_dnsmasq_empty_interface)
    ≡ true
unfolding test_start_dnsmasq test_start_dnsmasq_spawn_fails test_stop_dnsmasq
    test_stop_dnsmasq_kill_fails test_start_dnsmasq_empty_interface Dhcp.start Dhcp.stop dnsmasq
    IpRange.new check from_str from_parts split_dots octet decimal get_start_ip get_end_ip
dhcp_server_tests = refl
