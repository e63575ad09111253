-- ===== src/P2p/Types.antt =====
-- internal/p2p/types.go: the message that nodes exchange.
use dknet.Base.{ℕ, String, Bool, List}

abbrev pub Bytes : Type 0
Bytes = List ℕ

abbrev pub tss_party_protocol_id : String
tss_party_protocol_id = "/tss/party/0.0.1"

pub record Message : Type 0 where
  pub protocol_id : String
  pub session_id : String
  pub type : String
  pub from : String
  pub to : List String
  pub is_broadcast : Bool
  pub payload : Bytes  -- Data
  pub encrypted : Bool
  pub peer_encrypted : Bool
  pub timestamp : ℕ
  pub is_to_old_committee : Bool
  pub is_to_old_and_new_committees : Bool
  pub sender_peer_id : String
