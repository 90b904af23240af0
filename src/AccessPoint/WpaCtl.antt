-- ===== src/AccessPoint/WpaCtl.antt =====
-- src/access_point_ctl/wifi_manager/wpa_ctl.rs: hostapd's control socket. The `wpactrl` client is
-- not part of the repository: an interface over the state `W` of what is outside.
use webcam_direct_linux.Prelude.{
  Text, codes, ◌≡◌, arith, Option, none, some, ◌++◌, Exec, Result, ok, anyhow, ok_or, lift, pure,
  on, ◌>>=◌, ◌>>◌, ◌=?◌, list_key, number_key, if◌then◌else◌,
}

pub record WpaCtlClientOps (S : Type 0) : Type 0 where
  pub connect : Exec S (Unit {0})
  pub disconnect : Exec S (Unit {0})
  pub enable : Exec S (Unit {0})
  pub disable : Exec S (Unit {0})
  pub set_ssid : Text → Exec S (Unit {0})
  pub set_password : Text → Exec S (Unit {0})
  pub reload : Exec S (Unit {0})
  pub get_iw_name : S → Text
  pub get_control_dir : S → Text

-- `open_at` is `Client::builder().ctrl_path(path).open()`; a request names its client.
pub record Wpactrl (W Client : Type 0) : Type 0 where
  pub open_at : Text → Exec W Client
  pub request : Client → Text → Exec W Text

pub record WpaCtl (W Client : Type 0) : Type 0 where
  pub client : Option Client
  pub control_dir : Text
  pub iw_name : Text
  pub world : W

unfoldable pub new : {W Client : Type 0} → Text → Text → W → WpaCtl W Client
new control_dir iw_name w = record {
  client = none;
  control_dir = control_dir;
  iw_name = iw_name;
  world = w;
}

module _ {W Client : Type 0} (wpactrl : Wpactrl W Client) where
  abbrev pub world {ℓ} : {A : Type ℓ} → Exec W A → Exec (WpaCtl W Client) A
  world = on (λ c. c.world) (λ w c. record c { world = w })

  unfoldable pub get_client : WpaCtl W Client → Result Client
  get_client c = ok_or c.client "WPA client not connected"

  abbrev pub accepted : Text → Result Text
  accepted resp = if resp =? codes "FAIL" then anyhow "Failed to handle request" else ok resp

  unfoldable pub handle_request : Text → Exec (WpaCtl W Client) Text
  handle_request request c =
      (do
        client ← lift (get_client c)
        resp ← world (wpactrl.request client request)
        lift (accepted resp))
        c

  unfoldable pub connect : Exec (WpaCtl W Client) (Unit {0})
  connect c = elim c.client [
    | some client ↦ (ok tt, c)
    | none ↦
        (do
          client ← world (wpactrl.open_at (c.control_dir ++ codes "/" ++ c.iw_name))
          (λ d. (ok tt, record d { client = some client })))
          c
  ]

  unfoldable pub disconnect : Exec (WpaCtl W Client) (Unit {0})
  disconnect c = (ok tt, record c { client = none })

  unfoldable pub enable : Exec (WpaCtl W Client) (Unit {0})
  enable = do handle_request (codes "ENABLE"); pure tt

  unfoldable pub disable : Exec (WpaCtl W Client) (Unit {0})
  disable = do handle_request (codes "DISABLE"); pure tt

  unfoldable pub set_ssid : Text → Exec (WpaCtl W Client) (Unit {0})
  set_ssid ssid = do handle_request (codes "SET ssid " ++ ssid); pure tt

  unfoldable pub set_password : Text → Exec (WpaCtl W Client) (Unit {0})
  set_password password = do handle_request (codes "SET wpa_passphrase " ++ password); pure tt

  unfoldable pub reload : Exec (WpaCtl W Client) (Unit {0})
  reload = do handle_request (codes "RELOAD"); pure tt

  unfoldable pub get_iw_name : WpaCtl W Client → Text
  get_iw_name c = c.iw_name

  unfoldable pub get_control_dir : WpaCtl W Client → Text
  get_control_dir c = c.control_dir

  abbrev pub wpa_ctl : WpaCtlClientOps (WpaCtl W Client)
  wpa_ctl = record {
    connect = connect;
    disconnect = disconnect;
    enable = enable;
    disable = disable;
    set_ssid = set_ssid;
    set_password = set_password;
    reload = reload;
    get_iw_name = get_iw_name;
    get_control_dir = get_control_dir;
  }

  -- Without a connection every request fails, and nothing is sent.
  pub handle_request-closed :
      (request : Text) (c : WpaCtl W Client)
      → c.client ≡ none
      → handle_request request c ≡ (anyhow "WPA client not connected", c)
  unfolding handle_request get_client
  handle_request-closed request c e = ground arith

  -- No request changes the connection.
  pub client-handle_request :
      (request : Text) (c : WpaCtl W Client) → (handle_request request c).1.client ≡ c.client
  unfolding handle_request get_client
  client-handle_request request c = ground arith
