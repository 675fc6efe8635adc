-- ===== src/Services/Edl/Files.antt =====
-- `EdlFileReciever` of oresat_c3/services/edl.py, the user of the CFDP handlers. The handlers of
-- cfdp-py and their packets are parameters: a call of one is a machine, which calls the methods
-- of the receiver in between and at last returns or raises.
pub mod Loop
pub mod Growing
pub mod Queue
pub mod Proxied
mod Tests
use oresat_c3_software.Prelude.{
  ℕ, String, List, [], ◌∷◌, ◌++◌, Bool, true, false, not, ◌&&◌, ◌||◌, Option, none, some, Result,
  ok, err, Exec, ◌>>◌, ◌>>=◌, pure, raise,
}
use oresat_c3_software.Protocols.CacheStore.{CacheStore, FileNames, FilestoreResult, list_directory}

-- The keys of `proxy_responses`.
pub data ProxyMessageType : Type 0 where
  put_request msg_to_user fs_request fault_handler_override transmission_mode flow_label
        segmentation_ctrl put_response fs_response put_cancel closure_request :
      ProxyMessageType

pub data DirectoryOperationMessageType : Type 0 where
  listing_request listing_response custom_listing_parameters : DirectoryOperationMessageType

-- The exceptions: the two that `loop` expects of `put_request`, and others.
pub data Raised : Type 0 where
  source_file_does_not_exist no_remote_entity_cfg_found index_error attribute_error key_error
        other :
      Raised

-- The data of the messages: `TransactionId`, the parameters of a finished transaction and of a listing.
pub record Messages : Type 1 where
  pub TransactionId : Type 0
  pub same : TransactionId → TransactionId → Bool
  pub source_id : TransactionId → ℕ
  pub Finished : Type 0
  pub ListingParams : Type 0
  pub dir_file_name : ListingParams → String
  pub is_truthy : ProxyMessageType → Bool

module _ (m : Messages) where
  pub record PutParams : Type 0 where
    pub dest_entity_id : ℕ
    pub source_file_as_path : String
    pub dest_file_as_path : String
    pub transaction_id : m.TransactionId

  -- A reserved message, by what its getters return.
  pub record Reserved : Type 0 where
    pub proxy : Option ProxyMessageType
    pub directory : Option DirectoryOperationMessageType
    pub put_params : PutParams
    pub listing_params : m.ListingParams

  -- A message to the user that the receiver makes.
  pub data Tlv : Type 0 where
    filestore_rejection : Tlv
    finished : m.Finished → Tlv
    originating : m.TransactionId → Tlv
    listing_response_of : m.ListingParams → Tlv

  -- `PutRequest`, whose transmission mode the receiver always leaves out.
  pub record PutRequest : Type 0 where
    pub destination_id : ℕ
    pub source_file : Option String
    pub dest_file : Option String
    pub closure_requested : Bool
    pub msgs_to_user : List Tlv

  -- The calls of the receiver's methods: the last stands for those that only log.
  pub data Indication : Type 0 where
    transaction : (t_id : m.TransactionId) (orig : Option m.TransactionId) → Indication
    transaction_finished : (t_id : m.TransactionId) (params : m.Finished) → Indication
    metadata_recv :
        (source : ℕ) (t_id : m.TransactionId) (msgs : List (Option Reserved)) → Indication
    logged : Indication

  -- `unimplemented`
  abbrev pub unimplemented : Option PutRequest
  unimplemented = none

  -- `proxy_put_response`
  abbrev pub proxy_put_response : PutParams → PutRequest
  proxy_put_response params = record {
    destination_id = params.dest_entity_id;
    source_file = some params.source_file_as_path;
    dest_file = some params.dest_file_as_path;
    closure_requested = true;
    msgs_to_user = originating params.transaction_id ∷ [];
  }

  -- `proxy_request_complete`
  abbrev pub proxy_request_complete : m.TransactionId → m.Finished → PutRequest
  proxy_request_complete originating_id params = record {
    destination_id = m.source_id originating_id;
    source_file = none;
    dest_file = none;
    closure_requested = true;
    msgs_to_user = finished params ∷ originating originating_id ∷ [];
  }

  abbrev pub rejection : m.TransactionId → PutRequest
  rejection originating_id = record {
    destination_id = m.source_id originating_id;
    source_file = none;
    dest_file = none;
    closure_requested = true;
    msgs_to_user = filestore_rejection ∷ originating originating_id ∷ [];
  }

  -- `missing_file_response`; a first message of another kind has no originating id.
  unfoldable pub missing_file_response : PutRequest → Result Raised PutRequest
  missing_file_response invalid = elim invalid.msgs_to_user [
    | [] ↦ err index_error
    | tlv ∷ msgs ↦ elim tlv [ originating t_id ↦ ok (rejection t_id) | _ ↦ err attribute_error ]
  ]

  -- `directory_listing_response`, with the file of the listing.
  abbrev pub directory_listing_response : ℕ → m.TransactionId → m.ListingParams → PutRequest
  directory_listing_response source tid params = record {
    destination_id = source;
    source_file = some (m.dir_file_name params);
    dest_file = some (m.dir_file_name params);
    closure_requested = true;
    msgs_to_user = listing_response_of params ∷ originating tid ∷ [];
  }

  -- The handlers, the queue and the dict of the receiver.
  pub record Receiver (H : Type 0) : Type 0 where
    pub handlers : H
    pub scheduled_requests : List (Option PutRequest)
    pub active_requests : List (m.TransactionId × m.TransactionId)

  pub data Machine (H : Type 0) : Type 0 where
    returns : H → Machine H
    raises : Raised → H → Machine H
    indicates : Indication → H → (H → Machine H) → Machine H

  -- `active_requests.get(t_id)`, `active_requests[t_id] = orig` and `del active_requests[t_id]`.
  unfoldable pub get :
      m.TransactionId → List (m.TransactionId × m.TransactionId) → Option m.TransactionId
  get t_id [] = none
  get t_id (entry ∷ rest) = elim (m.same entry.0 t_id) [
    | true ↦ some entry.1
    | false ↦ get t_id rest
  ]

  unfoldable pub put :
      m.TransactionId
      → m.TransactionId
      → List (m.TransactionId × m.TransactionId)
      → List (m.TransactionId × m.TransactionId)
  put t_id orig [] = (t_id, orig) ∷ []
  put t_id orig (entry ∷ rest) = elim (m.same entry.0 t_id) [
    | true ↦ (entry.0, orig) ∷ rest
    | false ↦ entry ∷ put t_id orig rest
  ]

  unfoldable pub del :
      m.TransactionId
      → List (m.TransactionId × m.TransactionId)
      → List (m.TransactionId × m.TransactionId)
  del t_id [] = []
  del t_id (entry ∷ rest) = elim (m.same entry.0 t_id) [
    | true ↦ rest
    | false ↦ entry ∷ del t_id rest
  ]

  abbrev pub Call : Type 0 → Type 0
  Call H = Exec Raised (Receiver H) (Unit {0})

  module _ {H : Type 0} where
    -- `self.scheduled_requests.put(request)`
    abbrev pub schedule : Option PutRequest → Call H
    schedule request r =
        (ok tt, record r { scheduled_requests = r.scheduled_requests ++ request ∷ [] })

    -- `transaction_indication`
    unfoldable pub transaction_indication : m.TransactionId → Option m.TransactionId → Call H
    transaction_indication t_id none r = (ok tt, r)
    transaction_indication t_id (some orig) r =
        (ok tt, record r { active_requests = put t_id orig r.active_requests })

    -- `transaction_finished_indication`
    unfoldable pub transaction_finished_indication : m.TransactionId → m.Finished → Call H
    transaction_finished_indication t_id params r = elim (get t_id r.active_requests) [
      | none ↦ (ok tt, r)
      | some originating_id ↦ (
        ok tt,
        record r {
          scheduled_requests =
              r.scheduled_requests ++ some (proxy_request_complete originating_id params) ∷ [];
          active_requests = del t_id r.active_requests;
        },
      )
    ]

  -- The operations of the cache that the handlers and the receiver share, and those of the handlers.
  pub record Handlers (H Pdu : Type 0) : Type 0 where
    pub names : FileNames
    pub listing : Bool → List (String × List ℕ) → List (List ℕ)
    pub vfs : H → CacheStore
    pub set_vfs : CacheStore → H → H
    pub is_for_dest : Pdu → Bool
    pub dest_busy : H → Bool
    pub source_busy : H → Bool
    pub dest_insert_packet : Pdu → H → Machine H
    pub source_insert_packet : Pdu → H → Machine H
    pub dest_reset : H → H
    pub source_reset : H → H
    pub put_request_of : Option PutRequest → H → Machine H
    pub dest_state_machine : H → Machine H
    pub source_state_machine : H → Machine H
    pub get_next_packets : H → List Pdu × H

  -- The key of a message: `get_cfdp_proxy_message_type() or get_directory_operation_type()`.
  pub data Operation : Type 0 where
    proxied : ProxyMessageType → Operation
    directory_operation : DirectoryOperationMessageType → Operation
    no_operation : Operation

  abbrev pub or_directory : Option DirectoryOperationMessageType → Operation
  or_directory none = no_operation
  or_directory (some d) = directory_operation d

  unfoldable pub operation : Reserved → Operation
  operation message = elim message.proxy [
    | none ↦ or_directory message.directory
    | some p ↦ elim (m.is_truthy p) [ true ↦ proxied p | false ↦ or_directory message.directory ]
  ]
