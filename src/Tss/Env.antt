-- ===== src/Tss/Env.antt =====
-- What the service calls and does not implement: encoding/json, hashes, tss-lib, the database, the
-- random source, the validation plug-in and the network; and the fields of `Service` that
-- `NewService` sets and nothing assigns afterwards.
use dknet.Base.{ℕ, String, Bool, List, Option, ◌≡◌, ◌≢◌, Error, Result, ok, M}
use dknet.P2p.Types.{Bytes, Message}
use dknet.Plugin.Encryption.{Aead}
use dknet.Tss.Types.{
  PartyId, KeygenRequest, KeygenResult, SigningRequest, SigningResult, ResharingRequest, Value,
  SaveData, Party, Update, EndValue, OperationSyncData, SigningSyncData, ResharingSyncData,
  SyncData, OperationData, KeyData,
}

-- encoding/json at the types of this package; `none` is an error
pub record Json : Type 0 where
  pub marshal_key_data : KeyData → Option Bytes
  pub unmarshal_key_data : Bytes → Option KeyData
  pub marshal_save_data : SaveData → Option Bytes
  pub unmarshal_save_data : Bytes → Option SaveData
  pub marshal_operation : OperationData → Option Bytes
  pub unmarshal_operation : Bytes → Option OperationData
  pub marshal_value : Value → Option Bytes
  pub unmarshal_keygen_result : Bytes → Option KeygenResult
  pub unmarshal_signing_result : Bytes → Option SigningResult
  pub unmarshal_keygen_request : Bytes → Option KeygenRequest
  pub unmarshal_signing_request : Bytes → Option SigningRequest
  pub unmarshal_resharing_request : Bytes → Option ResharingRequest
  pub marshal_sync : SyncData → Option Bytes
  pub unmarshal_base : Bytes → Option OperationSyncData
  pub unmarshal_signing_sync : Bytes → Option SigningSyncData
  pub unmarshal_resharing_sync : Bytes → Option ResharingSyncData

-- tss-lib
pub record TssLib : Type 0 where
  pub sort_party_ids : List PartyId → List PartyId
  pub generate_pre_params : Option ℕ
  pub new_save_data : ℕ → SaveData
  -- ECDSAPub.X().Bytes() and ECDSAPub.Y().Bytes()
  pub x_bytes : SaveData → Bytes
  pub y_bytes : SaveData → Bytes
  -- Party.Start()
  pub start : Party → Option Error
  -- Party.UpdateFromBytes of a party that has had the updates of the list
  pub update_from_bytes : Party → List Update → Update → Result Bool
  -- what `recover` gives when `UpdateFromBytes` panics
  pub panic_value : EndValue

-- the interface storage.Storage over a database of type `D`
pub record Storage (D : Type 0) : Type 0 where
  pub save : String → Bytes → M D (Unit {0})
  pub load : String → D → Result Bytes

-- plugin.ValidationRequest and plugin.ValidationResponse, the fields that this package reads
pub record ValidationRequest : Type 0 where
  pub message : Bytes
  pub key_id : String
  pub participants : List String
  pub message_length : ℕ

pub record ValidationResponse : Type 0 where
  pub approved : Bool
  pub reason : String

pub record Env (D : Type 0) : Type 0 where
  pub json : Json
  pub lib : TssLib
  pub storage : Storage D
  pub sha512_256 : String → Bytes
  pub keccak256 : Bytes → Bytes
  -- the n-th value of `uuid.New().String()`, and the n-th nonce of `rand.Reader`
  pub uuid : ℕ → String
  pub nonce : ℕ → Option Bytes
  -- the text of an error, `Error()`
  pub error_text : Error → String
  -- network.SendMessage
  pub send_message : Message → Result (Unit {0})
  pub encryption : Aead
  pub validation_service : Option (ValidationRequest → Result ValidationResponse)
  pub node_id : String
  pub moniker : String

-- What a database promises: a saved value is loaded again, the other keys keep their values, and a
-- save that fails changes nothing.
pub record StorageLaws {D : Type 0} (storage : Storage D) : Type 0 where
  pub load-save :
      (k : String) (v : Bytes) (d : D)
      → (storage.save k v d).0 ≡ ok tt
      → storage.load k (storage.save k v d).1 ≡ ok v
  pub load-save_ne :
      (k j : String) (v : Bytes) (d : D)
      → k ≢ j
      → storage.load j (storage.save k v d).1 ≡ storage.load j d
  pub save_failed :
      (k : String) (v : Bytes) (d : D) → (storage.save k v d).0 ≢ ok tt → (storage.save k v d).1 ≡ d
