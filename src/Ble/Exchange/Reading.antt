-- ===== src/Ble/Exchange/Reading.antt =====
-- A mobile reads the characteristic of src/ble/clients/sdp_exchanger.rs again and again, until a
-- chunk says that nothing is left: each read is a query at the server.
use webcam_direct_linux.Prelude.{
  ℕ, zero, suc, ◌-◌, ◌≤◌, ◌≡◌, arith, List, [], ◌∷◌, ok, anyhow, Exec,
}
use webcam_direct_linux.Ble.Api.{Address, CommBuffer, BleComm, sdp_answer, QueryReq}
use webcam_direct_linux.Ble.CommTypes.{DataChunk, Codec}
use webcam_direct_linux.Ble.Requester.{Broadcast}
use webcam_direct_linux.Ble.Requester.Requests.{Mailbox, mailbox, ask, query}
use webcam_direct_linux.Ble.Server.Service.{CommDataService, Codecs}
use webcam_direct_linux.Ble.Server.{System, handle_query, handle_comm}
use webcam_direct_linux.Ble.Server.Serving.{handle_all, running}
use webcam_direct_linux.Ble.Server.Rounds.{read_between}
use webcam_direct_linux.Ble.Server.DownloadAmong.{round, round_same}
use webcam_direct_linux.Ble.Clients.SdpExchanger.{mtu_metadata_overhead, read_sdp_answer}

module _ {M Rx : Type 0} (server_conn : Mailbox M Rx) (codec : Codec DataChunk) where
  -- At most the given number of reads.
  unfoldable pub read_value : ℕ → Address → ℕ → Exec M (List DataChunk)
  read_value zero addr mtu s = (anyhow "chunks left", s)
  read_value (suc reads) addr mtu s =
      round codec (read_sdp_answer server_conn addr mtu) (read_value reads addr mtu) s

-- Rounds in which nobody else asks for anything.
abbrev pub undisturbed : ℕ → List (List BleComm)
undisturbed zero = []
undisturbed (suc n) = [] ∷ undisturbed n

-- The query that a read of the characteristic sends.
abbrev pub answer_req : ℕ → QueryReq
answer_req mtu = record { query_type = sdp_answer; resp_buffer_len = mtu - mtu_metadata_overhead }

module _ {S Tx Rx : Type 0} (service : CommDataService S Tx) (bus : Broadcast S Tx Rx)
    (codecs : Codecs) where
  read_sdp_answer_lem :
      (addr : Address) (mtu : ℕ) (encoded : CommBuffer) (s t : System S Tx)
      → mtu_metadata_overhead ≤ mtu
      → handle_query service bus codecs addr (answer_req mtu) s ≡ (ok encoded, t)
      → read_sdp_answer (mailbox service bus codecs) addr mtu (running s) ≡ (ok encoded, running t)
  unfolding read_sdp_answer query ask handle_comm
  read_sdp_answer_lem addr mtu encoded s t room e = ground (arith, e)

  pub read_value-read_between :
      (n : ℕ) (addr : Address) (mtu : ℕ) (out : List DataChunk) (s u : System S Tx)
      → mtu_metadata_overhead ≤ mtu
      → read_between service bus codecs (undisturbed n) addr (answer_req mtu) s ≡ (ok out, u)
      → read_value (mailbox service bus codecs) codecs.data_chunk n addr mtu (running s)
        ≡ (ok out, running u)
  unfolding read_between read_value handle_all
  read_value-read_between zero addr mtu out s u room e = absurd (ground (arith, e))
  read_value-read_between (suc n) addr mtu out s u room e =
      round_same running codecs.data_chunk (handle_query service bus codecs addr (answer_req mtu))
        (read_sdp_answer (mailbox service bus codecs) addr mtu)
        (read_between service bus codecs (undisturbed n) addr (answer_req mtu))
        (read_value (mailbox service bus codecs) codecs.data_chunk n addr mtu) out s u
        (λ encoded t got. read_sdp_answer_lem addr mtu encoded s t room got)
        (λ chunks got.
          read_value-read_between n addr mtu chunks
            (handle_query service bus codecs addr (answer_req mtu) s).1 u room got)
        e
