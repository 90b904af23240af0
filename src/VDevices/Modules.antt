-- ===== src/VDevices/Modules.antt =====
-- src/vdevice_builder/system_utils.rs, and `new` and `drop` of src/vdevice_builder/mod.rs: the
-- kernel modules that the virtual devices need. Running commands and reading files are the system's:
-- an interface over its state `W`.
pub mod Flags
use webcam_direct_linux.Prelude.{
  ℕ, ◌≡◌, refl, sym, ap, arith, Text, codes, Bool, true, false, not, ◌&&◌, ◌==◌, ◌↔◌, List, [], ◌∷◌,
  ◌++◌, map, Option, none, some, Result, ok, err, panic, anyhow, Exec, lift, pure, ◌>>=◌, ◌>>◌,
  Bool-cases, inl, inr, Result-cases, if◌then◌else◌,
}

-- `status` runs a command and tells whether it succeeded; `lines` opens a file and gives its lines up
-- to the end.
pub record Shell (W : Type 0) : Type 0 where
  pub status : List Text → Exec W Bool
  pub lines : Text → Exec W (List (Result Text))

abbrev pub starts_with : Text → Text → Bool
starts_with line [] = true
starts_with [] (c ∷ pattern) = false
starts_with (d ∷ line) (c ∷ pattern) = (d == c) && starts_with line pattern

-- The loop of `is_kmodule_loaded`, which an error ends like the end of the file.
unfoldable pub any_line : Text → List (Result Text) → Bool
any_line module_name [] = false
any_line module_name (ok line ∷ lines) =
    let rest = any_line module_name lines in if starts_with line module_name then true else rest
any_line module_name (err e ∷ lines) = false
any_line module_name (panic ∷ lines) = false

pub record VDeviceBuilder : Type 0 where
  pub is_v4l2loopback_loaded : Bool
  pub is_videodev_loaded : Bool

module _ {W : Type 0} (shell : Shell W) where
  -- `Err(anyhow!(message))` unless the command succeeded.
  abbrev pub succeed : List Text → Text → Exec W (Unit {0})
  succeed command message = do
    success ← shell.status command
    lift (if success then ok tt else err message)

  unfoldable pub load_kmodule : Text → Option (List Text) → Exec W (Unit {0})
  load_kmodule module_name args =
      succeed (codes "modprobe" ∷ module_name ∷ (elim args [ none ↦ [] | some args ↦ args ]))
        (codes "Failed to load module")

  unfoldable pub update_dir_permissions : Text → Text → Exec W (Unit {0})
  update_dir_permissions dir mode =
      succeed (codes "chmod" ∷ mode ∷ dir ∷ []) (codes "Failed to update directory permissions")

  unfoldable pub unload_kmodule : Text → Exec W (Unit {0})
  unload_kmodule module_name =
      succeed (codes "modprobe" ∷ codes "-r" ∷ module_name ∷ []) (codes "Failed to unload module")

  unfoldable pub is_kmodule_loaded : Text → Text → Exec W Bool
  is_kmodule_loaded reg_module_file module_name = do
    lines ← shell.lines reg_module_file
    pure (any_line module_name lines)

  -- The two blocks of `new`, which do the same: what has to be done unless the module is loaded, and
  -- the flag.
  unfoldable pub unless_loaded : Text → Exec W (Unit {0}) → Exec W Bool
  unless_loaded module_name load = do
    loaded ← is_kmodule_loaded (codes "/proc/modules") module_name
    elim loaded [ true ↦ pure false | false ↦ (do load; pure true) ]

  unfoldable pub setup_videodev : Exec W Bool
  setup_videodev = unless_loaded (codes "videodev") (do
    load_kmodule (codes "videodev") none
    update_dir_permissions (codes "/dev/v4l2loopback") (codes "o+r"))

  unfoldable pub setup_v4l2loopback : Exec W Bool
  setup_v4l2loopback =
      unless_loaded (codes "v4l2loopback")
        (load_kmodule (codes "v4l2loopback") (some (codes "exclusive_caps=1" ∷ [])))

  unfoldable pub new : Exec W VDeviceBuilder
  new = do
    videodev ← setup_videodev
    v4l2loopback ← setup_v4l2loopback
    pure (record { is_v4l2loopback_loaded = v4l2loopback; is_videodev_loaded = videodev })

  -- A failure is only logged.
  abbrev pub unload_if : Bool → Text → W → W
  unload_if flag module_name w = if flag then (unload_kmodule module_name w).1 else w

  unfoldable pub drop : VDeviceBuilder → W → W
  drop b w =
      unload_if b.is_videodev_loaded (codes "videodev")
        (unload_if b.is_v4l2loopback_loaded (codes "v4l2loopback") w)
