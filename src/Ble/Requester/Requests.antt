-- ===== src/Ble/Requester/Requests.antt =====
-- src/ble/requester.rs, `BleRequester`: the clients' end of the server's mailbox, and the server's
-- task at the other end (the `tokio::spawn` in `BleServer::new`, src/ble/server/mod.rs).
use webcam_direct_linux.Prelude.{
  ℕ, Bytes, Bool, true, false, ◌≡◌, ◌<◌, arith, if◌then◌else◌, Result, ok, panic, anyhow, Exec,
  lift, ◌>>=◌,
}
use webcam_direct_linux.Ble.Api
use webcam_direct_linux.Ble.Api.{
  Address, CommBuffer, CmdApi, QueryApi, PubSubTopic, QueryReq, CommandReq, SubReq, PubReq, BleComm,
}
use webcam_direct_linux.Ble.Requester.{Broadcast}
use webcam_direct_linux.Ble.Server.Service.{CommDataService, Codecs}
use webcam_direct_linux.Ble.Server.{
  System, Reply, query_resp, command_resp, sub_resp, pub_resp, handle_comm, handle_command,
}
use webcam_direct_linux.Ble.Server.Commands.{handle_sub-small}

-- Sending a request into the mailbox and waiting for its oneshot channel.
pub record Mailbox (M Rx : Type 0) : Type 0 where
  pub ask : BleComm → Exec M (Reply Rx)

-- A request's channel carries the type of its own answer, so that no other comes back.
module _ {Rx : Type 0} where
  abbrev pub query_answer : Reply Rx → Result CommBuffer
  query_answer (query_resp r) = r
  query_answer _ = anyhow "channel closed"

  abbrev pub command_answer : Reply Rx → Result (Unit {0})
  command_answer (command_resp r) = r
  command_answer _ = anyhow "channel closed"

  abbrev pub sub_answer : Reply Rx → Result Rx
  sub_answer (sub_resp r) = r
  sub_answer _ = anyhow "channel closed"

  abbrev pub pub_answer : Reply Rx → Result (Unit {0})
  pub_answer (pub_resp r) = r
  pub_answer _ = anyhow "channel closed"

module _ {M Rx : Type 0} (ble_tx : Mailbox M Rx) where
  unfoldable pub query : Address → QueryApi → ℕ → Exec M CommBuffer
  query addr query_type resp_buffer_len = do
    reply ← ble_tx.ask (record {
      addr = addr;
      comm_api = Api.query (record { query_type = query_type; resp_buffer_len = resp_buffer_len });
    })
    lift (query_answer reply)

  unfoldable pub cmd : Address → CmdApi → CommBuffer → Exec M (Unit {0})
  cmd addr cmd_type bytes = do
    reply ← ble_tx.ask (record {
      addr = addr;
      comm_api = Api.command (record { cmd_type = cmd_type; payload = bytes });
    })
    lift (command_answer reply)

  unfoldable pub subscribe : Address → PubSubTopic → ℕ → Exec M Rx
  subscribe addr topic resp_buffer_len = do
    reply ← ble_tx.ask (record {
      addr = addr;
      comm_api = Api.sub (record { topic = topic; resp_buffer_len = resp_buffer_len });
    })
    lift (sub_answer reply)

  unfoldable pub publish : Address → PubSubTopic → Bytes → Exec M (Unit {0})
  publish addr topic bytes = do
    reply ←
        ble_tx.ask (record {
          addr = addr;
          comm_api = Api.publish (record { topic = topic; payload = bytes });
        })
    lift (pub_answer reply)

-- The task runs until a request panics: then it is gone with its end of the channels, and whoever
-- waits or sends later is told that the channel is closed.
pub record ServerTask (S Tx : Type 0) : Type 0 where
  pub alive : Bool
  pub system : System S Tx

abbrev pub panicked {ℓ} : {A : Type ℓ} → Result A → Bool
panicked panic = true
panicked _ = false

abbrev pub reply_panicked : {Rx : Type 0} → Reply Rx → Bool
reply_panicked (query_resp r) = panicked r
reply_panicked (command_resp r) = panicked r
reply_panicked (sub_resp r) = panicked r
reply_panicked (pub_resp r) = panicked r

module _ {S Tx Rx : Type 0} (service : CommDataService S Tx) (bus : Broadcast S Tx Rx)
    (codecs : Codecs) where
  unfoldable pub ask : BleComm → Exec (ServerTask S Tx) (Reply Rx)
  ask comm task =
      let (reply, t) = handle_comm service bus codecs comm task.system in
      if task.alive
      then (if reply_panicked reply
          then (anyhow "channel closed", record { alive = false; system = t })
          else (ok reply, record { alive = true; system = t }))
      else (anyhow "channel closed", task)

  abbrev pub mailbox : Mailbox (ServerTask S Tx) Rx
  mailbox = record { ask = ask }

  -- A command of a client is the server's `handle_command`, while the task runs and unless it
  -- panics.
  pub cmd-handle_command :
      (addr : Address) (cmd_type : CmdApi) (bytes : CommBuffer) (s t : System S Tx)
      (r : Result (Unit {0}))
      → handle_command service bus codecs addr (record { cmd_type = cmd_type; payload = bytes }) s
        ≡ (r, t)
      → panicked r ≡ false
      → cmd mailbox addr cmd_type bytes (record { alive = true; system = s })
        ≡ (r, record { alive = true; system = t })
  unfolding cmd ask handle_comm
  cmd-handle_command addr cmd_type bytes s t r e p = ground (arith, e)

  -- One subscription with a buffer shorter than the overhead of a chunk ends a running server:
  -- every request after it, of any mobile, fails and changes nothing.
  pub ask-subscribe_small :
      (addr : Address) (topic : PubSubTopic) (len : ℕ) (s : System S Tx) (comm : BleComm)
      → len < s.handler.chunk_len
      → let task = (subscribe mailbox addr topic len (record { alive = true; system = s })).1 in
        ask comm task ≡ (anyhow "channel closed", task)
  unfolding subscribe ask handle_comm
  ask-subscribe_small addr topic len s comm short = ground (
    arith,
    handle_sub-small service bus codecs addr (record { topic = topic; resp_buffer_len = len }) s,
  )
