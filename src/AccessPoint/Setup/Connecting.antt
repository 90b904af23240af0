-- ===== src/AccessPoint/Setup/Connecting.antt =====
-- src/access_point_ctl/wifi_manager/mod.rs, `WifiManager::new` on the implemented process, file and
-- control socket: what is there when the manager is.
use webcam_direct_linux.Prelude.{
  ◌≡◌, ◌≢◌, refl, sym, subst, ap, ◌∙◌, arith, ℕ, zero, suc, Text, codes, ◌++◌, Option, some, none,
  ok, Result-cases, Option-cases, Bool-cases, pure, ◌>>◌, ◌=?◌, =?_iff, inl, inr, ◌⊎◌, list_key,
  number_key,
}
use webcam_direct_linux.AccessPoint.Process.{Command, Processes}
use webcam_direct_linux.AccessPoint.FileHdl.{Files}
use webcam_direct_linux.AccessPoint.Hostapd.{WifiCredentials}
use webcam_direct_linux.AccessPoint.WpaCtl as Control
use webcam_direct_linux.AccessPoint.WpaCtl.{Wpactrl}
use webcam_direct_linux.AccessPoint.WifiManager
use webcam_direct_linux.AccessPoint.Laws.{new-started}
use webcam_direct_linux.AccessPoint.WifiManager.{connect_tries}
use webcam_direct_linux.AccessPoint.Setup.Broadcasting.{
  of_control, WifiParts, daemon, control, in_world,
}
use webcam_direct_linux.AccessPoint.Setup.Launching.{IsLaunched, start-IsLaunched}

module _ {W File Child Client : Type 0} (fs : Files W File) (os : Processes W Child)
    (wpactrl : Wpactrl W Client) (output : Command → W → W) where
  -- What attempts to connect may change: the client, which is one of the socket's, and the world.
  abbrev pub IsOpened : WifiParts W File Child Client → Client → Type 0
  IsOpened v client =
      (w w' : W) × (wpactrl.open_at (v.control_dir ++ codes "/" ++ v.iw_name) w ≡ (ok client, w'))

  abbrev pub Attempted : WifiParts W File Child Client → WifiParts W File Child Client → Type 0
  Attempted v v' =
      (c : Option Client) × (w : W) × (v' ≡ record v { client = c; world = w })
      × ((c ≡ none) ⊎ ((client : Client) × (c ≡ some client) × IsOpened v client))

  attempt :
      (v : WifiParts W File Child Client)
      → v.client ≡ none
      → let (r, v') = (control fs os wpactrl output).connect v in
        ((r ≡ ok tt) × Attempted v v') ⊎ ((w : W) × (v' ≡ record v { client = none; world = w }))
  unfolding Control.connect
  attempt v closed =
      let o = wpactrl.open_at (v.control_dir ++ codes "/" ++ v.iw_name) v.world in
      elim (Result-cases o.0) [
        | inl (client, r) ↦ inl (
          ground (arith, r),
          (
            some client,
            o.1,
            ground (arith, r),
            inr (client, refl, (v.world, o.1, ground (arith, r))),
          ),
        )
        | inr (inl (m, r)) ↦ inr (o.1, ground (arith, r))
        | inr (inr r) ↦ inr (o.1, ground (arith, r))
      ]

  Attempted-from :
      (v u v' : WifiParts W File Child Client) (w : W)
      → u ≡ record v { client = none; world = w }
      → Attempted u v'
      → Attempted v v'
  Attempted-from v u v' w e a = subst (λ (x : WifiParts W File Child Client). Attempted x v') e a

  tries :
      (wait : W → W) (n : ℕ) (v : WifiParts W File Child Client)
      → v.client ≡ none
      → Attempted v
          (connect_tries
            (daemon fs os wpactrl output)
            (control fs os wpactrl output)
            (in_world wait)
            n
            v).1
  unfolding connect_tries
  tries wait zero v closed = (none, v.world, ground arith, inl refl)
  tries wait (suc n) v closed =
      let m = control fs os wpactrl output in
      let (r, v') = m.connect v in
      elim (attempt v closed) [
        | inl (works, a) ↦ rw (connect_tries, works) a
        | inr (w, e) ↦ elim (Result-cases r) [
          | inl (u, works) ↦ rw (connect_tries, works) (none, w, e, inl refl)
          | inr (inl (x, fails)) ↦
              rw (connect_tries, fails)
                (Attempted-from v (in_world wait v') _ (wait w)
                  (ap (λ (y : WifiParts W File Child Client). in_world wait y) e)
                  (tries wait n (in_world wait v')
                    (ap (λ (y : WifiParts W File Child Client). y.client) e)))
          | inr (inr crash) ↦ rw (connect_tries, crash) (none, w, e, inl refl)
        ]
      ]

  -- A request that is taken: there is a client, it was sent to that client, and the answer is not a
  -- refusal.
  pub record IsTaken (request : Text) (v v' : WifiParts W File Child Client) : Type 0 where
    pub client : Client
    pub resp : Text
    pub w : W
    pub held : v.client ≡ some client
    pub sent : wpactrl.request client request v.world ≡ (ok resp, w)
    pub accepted : resp ≢ codes "FAIL"
    pub reached : v' ≡ record v { world = w }

  pub request-IsTaken :
      (request : Text) (v v' : WifiParts W File Child Client)
      → of_control (Control.handle_request wpactrl request >> pure (tt {0})) v ≡ (ok tt, v')
      → IsTaken request v v'
  unfolding Control.handle_request Control.get_client
  request-IsTaken request v v' e = elim (Option-cases v.client) [
    | inl closed ↦ absurd (ground (arith, closed))
    | inr (client, held) ↦ elim (Result-cases (wpactrl.request client request v.world).0) [
      | inl (resp, r) ↦ elim (Bool-cases (resp =? codes "FAIL")) [
        | inl refused ↦ absurd (ground (arith, held, r, refused))
        | inr taken ↦ record {
          client = client;
          resp = resp;
          w = (wpactrl.request client request v.world).1;
          held = held;
          sent = ground (arith, r);
          accepted = λ same. absurd (ground (arith, taken, (=?_iff resp (codes "FAIL")).1 same));
          reached = ground (arith, held, r, taken);
        }
      ]
      | inr (inl (m, r)) ↦ absurd (ground (arith, held, r))
      | inr (inr r) ↦ absurd (ground (arith, held, r))
    ]
  ]

  -- The attempts and the pause that follow a launch: if the pause is taken, the socket was opened,
  -- and only the client and the world have changed.
  connected :
      (u t v : WifiParts W File Child Client)
      → Attempted u t
      → IsTaken (codes "DISABLE") t v
      → (client : Client) × (v.client ≡ some client)
        × IsOpened u client
        × (v.child_process ≡ u.child_process)
  connected u t v (c, w, e, inl closed) taken =
      absurd (ground (arith, ap (λ (x : WifiParts W File Child Client). x.client) e, taken.held))
  connected u t v (c, w, e, inr (client, is, opened)) taken =
      let r =
        taken.reached ∙ ap (λ (x : WifiParts W File Child Client). in_world (λ y. taken.w) x) e in
      (
        client,
        ap (λ (x : WifiParts W File Child Client). x.client) r ∙ is,
        opened,
        ap (λ (x : WifiParts W File Child Client). x.child_process) r,
      )

  -- A manager that is made launched hostapd with the credentials and opened its control socket.
  pub new-IsLaunched :
      (to_str : Text → Option Text) (wait : W → W) (creds kept : WifiCredentials)
      (v v' : WifiParts W File Child Client)
      → v.file ≡ none
      → v.child_process ≡ none
      → v.client ≡ none
      → WifiManager.new
          (daemon fs os wpactrl output)
          (control fs os wpactrl output)
          to_str
          (in_world wait)
          creds
          v
        ≡ (ok kept, v')
      → (dir : Text) × (u : WifiParts W File Child Client) × (client : Client) × (to_str
            v.control_dir
          ≡ some dir)
        × IsLaunched fs os wpactrl output creds dir v u
        × (v'.child_process ≡ u.child_process)
        × IsOpened u client
        × (v'.client ≡ some client)
  unfolding Control.get_iw_name Control.get_control_dir Control.disable
  new-IsLaunched to_str wait creds kept v v' closed free unconnected e =
      let (dir, u, t, named, started, tried, paused) =
        new-started (daemon fs os wpactrl output) (control fs os wpactrl output) to_str
          (in_world wait) creds kept v v' e in
      let launched = start-IsLaunched fs os wpactrl output creds dir v u closed free started in
      let quiet =
        ap (λ (x : WifiParts W File Child Client). x.client) launched.reached ∙ unconnected in
      let attempted : Attempted u t =
        subst (λ (x : WifiParts W File Child Client). Attempted u x) (sym tried)
          (tries wait 5 u quiet) in
      let (client, is, opened, same) =
        connected u t v' attempted (request-IsTaken (codes "DISABLE") t v' paused) in
      (dir, u, client, named, launched, same, opened, is)
