-- ===== src/AccessPoint/Process.antt =====
-- src/access_point_ctl/process_hdl.rs: at most one child process at a time. What the operating
-- system does with processes is an interface over its state `W`.
use webcam_direct_linux.Prelude.{
  Text, ◌≡◌, arith, Option, none, some, List, Exec, ok, err, anyhow, on, ◌>>=◌, ◌>>◌,
}

pub record Command : Type 0 where
  pub program : Text
  pub args : List Text

pub record ProcessHdlOps (S : Type 0) : Type 0 where
  pub spawn : Command → Exec S (Unit {0})
  pub kill : Exec S (Unit {0})

pub record Processes (W Child : Type 0) : Type 0 where
  pub spawn : Command → Exec W Child
  pub kill : Child → Exec W (Unit {0})
  pub wait : Child → Exec W (Unit {0})

pub record ProcessHdl (W Child : Type 0) : Type 0 where
  pub child_process : Option Child
  pub world : W

unfoldable pub handler : {W Child : Type 0} → W → ProcessHdl W Child
handler w = record { child_process = none; world = w }

module _ {W Child : Type 0} (os : Processes W Child) where
  abbrev pub world {ℓ} : {A : Type ℓ} → Exec W A → Exec (ProcessHdl W Child) A
  world = on (λ h. h.world) (λ w h. record h { world = w })

  unfoldable pub spawn : Command → Exec (ProcessHdl W Child) (Unit {0})
  spawn cmd h = elim h.child_process [
    | some child ↦ (anyhow "Handler already has an associated process", h)
    | none ↦
        (do child ← world (os.spawn cmd); (λ g. (ok tt, record g { child_process = some child }))) h
  ]

  -- The child is taken out before it is killed.
  unfoldable pub kill : Exec (ProcessHdl W Child) (Unit {0})
  kill h = elim h.child_process [
    | none ↦ (ok tt, h)
    | some child ↦
        (do world (os.kill child); world (os.wait child)) (record h { child_process = none })
  ]

  -- A failure is only logged.
  unfoldable pub drop : ProcessHdl W Child → ProcessHdl W Child
  drop h = (kill h).1

  abbrev pub process_hdl : ProcessHdlOps (ProcessHdl W Child)
  process_hdl = record { spawn = spawn; kill = kill }

  -- After a successful spawn every other spawn of the handler is refused, and changes nothing.
  pub spawn-spawn :
      (cmd cmd' : Command) (h h' : ProcessHdl W Child)
      → spawn cmd h ≡ (ok tt, h')
      → spawn cmd' h' ≡ (anyhow "Handler already has an associated process", h')
  unfolding spawn
  spawn-spawn cmd cmd' h h' e = ground arith

  -- With no child to begin with, `kill` succeeds and changes nothing.
  pub kill-none : (h : ProcessHdl W Child) → h.child_process ≡ none → kill h ≡ (ok tt, h)
  unfolding kill
  kill-none h e = ground arith

  -- After `kill`, also one that failed, the handler has no child.
  pub child_process-kill : (h : ProcessHdl W Child) → (kill h).1.child_process ≡ none
  unfolding kill
  child_process-kill h = ground arith

  -- A child that cannot be killed is forgotten: the next command is started beside it.
  pub spawn-kill_failed :
      (cmd : Command) (h : ProcessHdl W Child) (child fresh : Child) (e : Text) (w w' : W)
      → h.child_process ≡ some child
      → os.kill child h.world ≡ (err e, w)
      → os.spawn cmd w ≡ (ok fresh, w')
      → ((kill h).0 ≡ err e)
        × (spawn cmd (kill h).1 ≡ (ok tt, record { child_process = some fresh; world = w' }))
  unfolding kill spawn
  spawn-kill_failed cmd h child fresh e w w' c k s = ground arith
