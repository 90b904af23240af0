-- ===== src/Ble/Clients/WriteStream.antt =====
-- The writing half of a GATT client: the branches of the `select!` loops in provisioner
-- (src/ble/clients/provisioner.rs) and sdp_exchanger (src/ble/clients/sdp_exchanger.rs) that take a
-- mobile's writes. The two loops do the same with different commands. `bluer` is not part of the
-- repository: what its streams deliver are the events, and `Reader` is its `CharacteristicReader`.
use webcam_direct_linux.Prelude.{
  ℕ, zero, suc, ◌<◌, ◌≡◌, refl, ap, arith, Bytes, List, [], ◌∷◌, ◌++◌, length, take, drop, Option,
  none, some, Result, ok, err, panic, Exec,
}
use webcam_direct_linux.Ble.Api.{Address, CmdApi}
use webcam_direct_linux.Ble.Requester.Requests.{Mailbox, cmd}

-- Whether the loop goes round again.
pub data Flow : Type 0 where
  go stop : Flow

pub record WriteStream (Reader : Type 0) : Type 0 where
  pub current_device_addr : Address
  pub read_buf : Bytes
  pub reader_opt : Option Reader

pub record Client (Reader M : Type 0) : Type 0 where
  pub stream : WriteStream Reader
  pub server : M

unfoldable pub new_stream : {Reader : Type 0} → WriteStream Reader
new_stream = record { current_device_addr = []; read_buf = []; reader_opt = none }

-- `vec![0; n]`.
unfoldable pub zeros : ℕ → Bytes
zeros zero = []
zeros (suc n) = 0 ∷ zeros n

pub length-zeros : (n : ℕ) → length (zeros n) ≡ n
unfolding zeros
length-zeros zero = refl
length-zeros (suc n) = ap suc (length-zeros n)

-- What `read(&mut buf)` leaves of the buffer: the bytes read, and behind them what was there.
abbrev pub filled : Bytes → Bytes → Bytes
filled bytes buf = bytes ++ drop (length bytes) buf

take_front : (xs ys : Bytes) → take (length xs) (xs ++ ys) ≡ xs
take_front [] ys = refl
take_front (x ∷ xs) ys = ap (λ (l : Bytes). x ∷ l) (take_front xs ys)

pub take-filled : (bytes buf : Bytes) → take (length bytes) (filled bytes buf) ≡ bytes
take-filled bytes buf = take_front bytes (drop (length bytes) buf)

-- `write` is a request to write, with the MTU, and what accepting it gives; `read` is the outcome of
-- reading the accepted stream; `lost` is a read whose branch of the `select!` another branch
-- cancelled while the server's mailbox was full; `other` is any other event of the characteristic,
-- and `dropped` the end of the client.
pub data WriteEvent (Reader : Type 0) : Type 0 where
  write : Address → ℕ → Result Reader → WriteEvent Reader
  read : Result Bytes → WriteEvent Reader
  lost : Bytes → WriteEvent Reader
  other dropped : WriteEvent Reader

module _ {Reader M Rx : Type 0} (server_conn : Mailbox M Rx) (cmd_type : CmdApi) where
  abbrev pub set_stream : WriteStream Reader → Client Reader M → Client Reader M
  set_stream stream c = record c { stream = stream }

  -- A request to write replaces the stream that was read before, whoever wrote it.
  unfoldable pub accept_write : Address → ℕ → Result Reader → Exec (Client Reader M) Flow
  accept_write addr mtu (ok reader) c = (
    ok go,
    set_stream
        (record { current_device_addr = addr; read_buf = zeros mtu; reader_opt = some reader }) c,
  )
  accept_write addr mtu (err e) c =
      (err e, set_stream (record c.stream { current_device_addr = addr; read_buf = zeros mtu }) c)
  accept_write addr mtu panic c = (panic, c)

  -- What was read becomes a command of the address that asked to write last; an error of the command
  -- is only logged.
  unfoldable pub take_read : Result Bytes → Exec (Client Reader M) Flow
  take_read (ok []) c = (ok go, set_stream (record c.stream { reader_opt = none }) c)
  take_read (ok (b ∷ bytes)) c =
      let n = length (b ∷ bytes) in
      let buf = filled (b ∷ bytes) c.stream.read_buf in
      let (r, m) = cmd server_conn c.stream.current_device_addr cmd_type (take n buf) c.server in
      (ok go, record { stream = record c.stream { read_buf = buf }; server = m })
  take_read (err e) c = (ok go, set_stream (record c.stream { reader_opt = none }) c)
  take_read panic c = (panic, c)

  unfoldable pub handle_write : WriteEvent Reader → Exec (Client Reader M) Flow
  handle_write (write addr mtu accepted) c = accept_write addr mtu accepted c
  handle_write (read outcome) c = take_read outcome c
  handle_write (lost bytes) c =
      (ok go, set_stream (record c.stream { read_buf = filled bytes c.stream.read_buf }) c)
  handle_write other c = (ok go, c)
  handle_write dropped c = (ok stop, c)

  -- The loop over the events, up to the first that ends it.
  unfoldable pub write_loop : List (WriteEvent Reader) → Exec (Client Reader M) (Unit {0})
  write_loop [] c = (ok tt, c)
  write_loop (event ∷ events) c =
      let next = handle_write event c in
      elim next.0 [
        | ok flow ↦ elim flow [ go ↦ write_loop events next.1 | stop ↦ (ok tt, next.1) ]
        | err e ↦ (err e, next.1)
        | panic ↦ (panic, next.1)
      ]

  -- Bytes that are read become one command with exactly those bytes, of the last writer.
  pub take_read_lem :
      (bytes : Bytes) (c : Client Reader M) (r : Result (Unit {0})) (m : M)
      → 0 < length bytes
      → cmd server_conn c.stream.current_device_addr cmd_type bytes c.server ≡ (r, m)
      → take_read (ok bytes) c ≡ (
        ok go,
        record {
          stream = record c.stream { read_buf = filled bytes c.stream.read_buf };
          server = m;
        },
      )
  unfolding take_read
  take_read_lem [] c r m some_data e = absurd (omega arith)
  take_read_lem (b ∷ bytes) c r m some_data e =
      rw (take-filled (b ∷ bytes) c.stream.read_buf, e) refl

  pub write_loop_read :
      (bytes : Bytes) (events : List (WriteEvent Reader)) (c : Client Reader M)
      (r : Result (Unit {0})) (m : M)
      → 0 < length bytes
      → cmd server_conn c.stream.current_device_addr cmd_type bytes c.server ≡ (r, m)
      → write_loop (read (ok bytes) ∷ events) c
        ≡ write_loop events (record {
          stream = record c.stream { read_buf = filled bytes c.stream.read_buf };
          server = m;
        })
  unfolding write_loop handle_write
  write_loop_read bytes events c r m some_data e =
      ground (arith, take_read_lem bytes c r m some_data e)

  -- A mobile whose request to write is accepted takes the stream over from another: bytes that are
  -- read afterwards become its own command, and the stream of the other is read no more.
  write_loop-takeover :
      (addr addr' : Address) (mtu mtu' : ℕ) (reader reader' : Reader) (bytes : Bytes)
      (c : Client Reader M) (r : Result (Unit {0})) (m : M)
      → 0 < length bytes
      → cmd server_conn addr' cmd_type bytes c.server ≡ (r, m)
      → let t =
          write_loop
            (write addr mtu (ok reader) ∷ write addr' mtu' (ok reader') ∷ read (ok bytes) ∷ [])
            c in
        (t.0 ≡ ok tt)
        × (t.1.server ≡ m)
        × (t.1.stream.reader_opt ≡ some reader')
        × (t.1.stream.current_device_addr ≡ addr')
  unfolding write_loop handle_write accept_write
  write_loop-takeover addr addr' mtu mtu' reader reader' bytes c r m some_data e =
      let u : Client Reader M = record {
        stream = record {
          current_device_addr = addr';
          read_buf = zeros mtu';
          reader_opt = some reader';
        };
        server = c.server;
      } in
      ground (arith, take_read_lem bytes u r m some_data e)
