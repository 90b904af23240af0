-- ===== src/VDevices/Modules/Flags.antt =====
-- src/vdevice_builder/system_utils.rs, `is_kmodule_loaded`, and the flags that `new` of
-- src/vdevice_builder/mod.rs leaves for `drop`.
use webcam_direct_linux.Prelude.{
  ◌≡◌, refl, ap, ◌∙◌, arith, Text, codes, Bool, true, false, not, ==_iff, ◌↔◌, List, [], ◌∷◌, ◌++◌,
  map, none, Result, ok, err, panic, Bool-cases, inl, inr, Result-cases, Exec, continue_ok,
}
use webcam_direct_linux.VDevices.Modules.{
  Shell, unless_loaded, starts_with, any_line, VDeviceBuilder, load_kmodule, update_dir_permissions,
  unload_if, is_kmodule_loaded, setup_videodev, setup_v4l2loopback, new, drop,
}

-- A line that starts with the name, with no error before it.
abbrev pub Listed : Text → List (Result Text) → Type 0
Listed module_name lines =
    (before : List Text) × (line : Text) × (after : List (Result Text)) × (lines
      ≡ map ok before ++ ok line ∷ after)
    × (starts_with line module_name ≡ true)

listed :
    (module_name : Text) (lines : List (Result Text))
    → any_line module_name lines ≡ true
    → Listed module_name lines
unfolding any_line
listed module_name [] e = absurd (ground (arith, e))
listed module_name (err m ∷ lines) e = absurd (ground (arith, e))
listed module_name (panic ∷ lines) e = absurd (ground (arith, e))
listed module_name (ok line ∷ lines) e = elim (Bool-cases (starts_with line module_name)) [
  | inl found ↦ ([], line, lines, refl, found)
  | inr other ↦
      let (before, l, after, split, found) = listed module_name lines (ground (arith, e, other)) in
      (line ∷ before, l, after, ap (λ (xs : List (Result Text)). ok line ∷ xs) split, found)
]

found_line :
    (module_name : Text) (before : List Text) (line : Text) (after : List (Result Text))
    → starts_with line module_name ≡ true
    → any_line module_name (map ok before ++ ok line ∷ after) ≡ true
unfolding any_line
found_line module_name [] line after e = ground (arith, e)
found_line module_name (b ∷ before) line after e =
    ground (arith, found_line module_name before line after e)

-- A module counts as loaded exactly if a line starts with its name and no reading error comes
-- before that line.
any_line_iff :
    (module_name : Text) (lines : List (Result Text))
    → (any_line module_name lines ≡ true) ↔ Listed module_name lines
any_line_iff module_name lines = (
  listed module_name lines,
  λ l.
      let (before, line, after, split, found) = l in
      ap (any_line module_name) split ∙ found_line module_name before line after found,
)

pub starts_with-append : (pattern rest : Text) → starts_with (pattern ++ rest) pattern ≡ true
starts_with-append [] rest = ground arith
starts_with-append (c ∷ pattern) rest = ground (arith, starts_with-append pattern rest, ==_iff c c)

module _ {W : Type 0} (shell : Shell W) where
  unless_loaded_lem :
      (module_name : Text) (load : Exec W (Unit {0})) (w : W) (flag : Bool)
      → (unless_loaded shell module_name load w).0 ≡ ok flag
      → (loaded : Bool) × ((is_kmodule_loaded shell (codes "/proc/modules") module_name w).0
          ≡ ok loaded)
        × (flag ≡ not loaded)
  unfolding unless_loaded
  unless_loaded_lem module_name load w flag e =
      let look = is_kmodule_loaded shell (codes "/proc/modules") module_name w in
      elim (Result-cases look.0) [
        | inl (true, found) ↦ (true, found, ground (arith, found, e))
        | inl (false, found) ↦ (false, found, ground (arith, found, e))
        | inr failed ↦ absurd (ground (arith, failed, e))
      ]

  setup_videodev_flag :
      (w : W) (flag : Bool)
      → (setup_videodev shell w).0 ≡ ok flag
      → (loaded : Bool) × ((is_kmodule_loaded shell (codes "/proc/modules") (codes "videodev") w).0
          ≡ ok loaded)
        × (flag ≡ not loaded)
  unfolding setup_videodev
  setup_videodev_flag w flag e = unless_loaded_lem (codes "videodev") _ w flag e

  setup_v4l2loopback_flag :
      (w : W) (flag : Bool)
      → (setup_v4l2loopback shell w).0 ≡ ok flag
      → (loaded : Bool) × ((is_kmodule_loaded shell
            (codes "/proc/modules")
            (codes "v4l2loopback")
            w).0
          ≡ ok loaded)
        × (flag ≡ not loaded)
  unfolding setup_v4l2loopback
  setup_v4l2loopback_flag w flag e = unless_loaded_lem (codes "v4l2loopback") _ w flag e

  -- Dropping the builder that `new` made unloads, of the two modules, exactly the ones that were
  -- not found when `new` looked for them.
  pub new-drop :
      (w w' : W) (b : VDeviceBuilder)
      → new shell w ≡ (ok b, w')
      → (videodev v4l2loopback : Bool) × ((is_kmodule_loaded shell
            (codes "/proc/modules")
            (codes "videodev")
            w).0
          ≡ ok videodev)
        × ((is_kmodule_loaded shell
              (codes "/proc/modules")
              (codes "v4l2loopback")
              (setup_videodev shell w).1).0
            ≡ ok v4l2loopback)
        × (drop shell b w'
            ≡ unload_if shell
                (not videodev)
                (codes "videodev")
                (unload_if shell (not v4l2loopback) (codes "v4l2loopback") w'))
  unfolding new drop
  new-drop w w' b e =
      let first = setup_videodev shell w in
      let (v, made, rest) = continue_ok first.0 _ first.1 w' b e in
      let second = setup_v4l2loopback shell first.1 in
      let (u, made', done) = continue_ok second.0 _ second.1 w' b rest in
      let (loaded, found, flag) = setup_videodev_flag w v made in
      let (loaded', found', flag') = setup_v4l2loopback_flag first.1 u made' in
      (loaded, loaded', found, found', ground (arith, done, flag, flag'))

  -- Where `videodev` has to be loaded and the permissions of /dev/v4l2loopback cannot be changed then,
  -- there is no builder, and `videodev` stays loaded: what was loaded before the failure is not unloaded.
  pub new-partial :
      (w w1 w2 w3 : W) (e : Text)
      → is_kmodule_loaded shell (codes "/proc/modules") (codes "videodev") w ≡ (ok false, w1)
      → load_kmodule shell (codes "videodev") none w1 ≡ (ok tt, w2)
      → update_dir_permissions shell (codes "/dev/v4l2loopback") (codes "o+r") w2 ≡ (err e, w3)
      → new shell w ≡ (err e, w3)
  unfolding new setup_videodev unless_loaded
  new-partial w w1 w2 w3 e found loaded denied = rw (found, loaded, denied) refl
