-- ===== src/Examples/Starting.antt =====
-- Requests in the sample world.
use dknet.Base.{
  ℕ, [], ◌∷◌, none, some, ok, err, Error, errorf, wrapf, str, not_found, ◌≡◌, refl, pos, lookup,
  contains, ne_of_==,
}
use dknet.Plugin.Encryption.{decrypt}
use dknet.Tss.Types.{PartyId, KeyData}
use dknet.Tss.Env.{Env}
use dknet.Tss.Service.{Service, Started, find, find_party, create_participant_list, new_party_id}
use dknet.Tss.Store.{operation_key, load_key_data, load_key_metadata}
use dknet.Tss.Keygen.{start_keygen}
use dknet.Tss.Sign.{start_signing, validate_signing_request}
use dknet.Tss.Resharing.{
  start_resharing, create_resharing_operation, ResharingOperationParams, check_thresholds,
}
use dknet.Tss.Resharing.Checks.{Permitted, create_resharing-Permitted}
use dknet.Tss.Requests.{start_unknown}
use dknet.Tss.Requests.Fresh.{start_keygen_fresh, keygen_started, keygen_announced}
use dknet.Samples.{Db, world, idle, names}

abbrev alice : Env Db
alice = world "alice"

-- an operation is active
abbrev busy : Service Db
busy = record idle { operations = ("key-1", 4) ∷ [] }

found : find "key-1" busy ≡ some 4
unfolding find lookup
found = refl

absent : find "key-2" busy ≡ none
unfolding find lookup
absent = refl

not_stored : alice.storage.load (operation_key "key-2") busy.db ≡ err not_found
unfolding lookup
not_stored = refl

start_unknown_example :
    (start_keygen alice "key-2" (pos 1) names busy
      ≡ (err (wrapf "failed to load operation data" not_found), busy))
    × (start_signing alice "key-2" (104 ∷ []) "0x0102" names busy
        ≡ (err (wrapf "failed to load operation data" not_found), busy))
    × (start_resharing alice "key-2" "0x0102" (pos 1) names busy
        ≡ (err (wrapf "failed to load operation data" not_found), busy))
start_unknown_example =
    start_unknown alice "key-2" busy (ne_of_== refl) not_found (pos 1) (104 ∷ []) "0x0102" names
      absent not_stored

abbrev self : PartyId
self = new_party_id alice "alice"

alice_takes_part : find_party "alice" (create_participant_list alice names) ≡ some self
unfolding find_party create_participant_list new_party_id
alice_takes_part = refl

start_keygen_fresh_example :
    ((start_keygen alice "" (pos 1) names idle).0 ≡ ok 0)
    × Started
        (keygen_started alice idle (pos 1) names self)
        10
        (keygen_announced alice idle (pos 1) names)
        idle
        (start_keygen alice "" (pos 1) names idle).1
start_keygen_fresh_example = start_keygen_fresh alice idle (pos 1) names self alice_takes_part

-- alice holds a key share
abbrev holder : Service Db
holder = record idle { db = ("0x0102", 7 ∷ 7 ∷ 1 ∷ []) ∷ [] }

abbrev share : KeyData
share = record {
  moniker = "node";
  key_data = 7 ∷ 7 ∷ 1 ∷ [];
  threshold = pos 1;
  participants = names;
}

loaded : (load_key_data alice "0x0102" holder).0 ≡ ok (share, 1)
unfolding load_key_data load_key_metadata lookup decrypt
loaded = refl

approved : validate_signing_request alice (104 ∷ []) "0x0102" names ≡ ok tt
unfolding validate_signing_request
approved = refl

abbrev resharing_params : ResharingOperationParams
resharing_params = record {
  operation_id = "reshare-1";
  session_id = "session";
  key_id = "0x0102";
  new_threshold = pos 1;
  new_participants = "bob" ∷ "carol" ∷ [];
}

created : (create_resharing_operation alice resharing_params holder).0 ≡ ok 0
unfolding create_resharing_operation load_key_data load_key_metadata lookup decrypt contains
    find_party create_participant_list new_party_id check_thresholds
created = refl

create_resharing-Permitted_example :
    (k : KeyData) × (d : ℕ) × Permitted alice resharing_params holder k d
create_resharing-Permitted_example =
    create_resharing-Permitted alice resharing_params holder 0 created

abbrev rejection : Error
rejection = errorf "signing request rejected by validation service: %s" (str "" ∷ [])

empty_rejected : validate_signing_request alice [] "0x0102" names ≡ err rejection
unfolding validate_signing_request
empty_rejected = refl
