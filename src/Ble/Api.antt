-- ===== src/Ble/Api.antt =====
-- src/ble/api.rs: the requests that the GATT clients send to the server task. A request carries a
-- oneshot sender for its answer; in the model the answer is the value that a handler returns.
use webcam_direct_linux.Prelude.{ℕ, Text, Bytes, Bool, true, false, Key, ◌≡◌, ◌↔◌, arith}

abbrev pub max_buffer_len : ℕ
max_buffer_len = 5000

abbrev pub CommBuffer : Type 0
CommBuffer = Bytes

abbrev pub Address : Type 0
Address = Text

pub data CmdApi : Type 0 where
  mobile_disconnected register_mobile sdp_offer : CmdApi

pub data QueryApi : Type 0 where
  host_info sdp_answer : QueryApi

pub data PubSubTopic : Type 0 where
  sdp_answer_ready : PubSubTopic

pub record QueryReq : Type 0 where
  pub query_type : QueryApi
  pub resp_buffer_len : ℕ

pub record CommandReq : Type 0 where
  pub cmd_type : CmdApi
  pub payload : CommBuffer

pub record SubReq : Type 0 where
  pub topic : PubSubTopic
  pub resp_buffer_len : ℕ

pub record PubReq : Type 0 where
  pub topic : PubSubTopic
  pub payload : CommBuffer

pub data BleApi : Type 0 where
  query : QueryReq → BleApi
  command : CommandReq → BleApi
  sub : SubReq → BleApi
  publish : PubReq → BleApi

pub record BleComm : Type 0 where
  pub addr : Address
  pub comm_api : BleApi

-- The derived `Eq` of the three enumerations.
abbrev pub same_cmd : CmdApi → CmdApi → Bool
same_cmd mobile_disconnected mobile_disconnected = true
same_cmd register_mobile register_mobile = true
same_cmd sdp_offer sdp_offer = true
same_cmd _ _ = false

pub same_cmd_iff : (a b : CmdApi) → (same_cmd a b ≡ true) ↔ (a ≡ b)
same_cmd_iff a b = ground arith

abbrev pub same_query : QueryApi → QueryApi → Bool
same_query host_info host_info = true
same_query sdp_answer sdp_answer = true
same_query _ _ = false

pub same_query_iff : (a b : QueryApi) → (same_query a b ≡ true) ↔ (a ≡ b)
same_query_iff a b = ground arith

abbrev pub same_topic : PubSubTopic → PubSubTopic → Bool
same_topic sdp_answer_ready sdp_answer_ready = true

pub same_topic_iff : (a b : PubSubTopic) → (same_topic a b ≡ true) ↔ (a ≡ b)
same_topic_iff sdp_answer_ready sdp_answer_ready = ground arith

instance abbrev pub cmd_key : Key CmdApi
cmd_key = record { same = same_cmd; same_iff = same_cmd_iff }

instance abbrev pub query_key : Key QueryApi
query_key = record { same = same_query; same_iff = same_query_iff }

instance abbrev pub topic_key : Key PubSubTopic
topic_key = record { same = same_topic; same_iff = same_topic_iff }
