-- ===== src/Interaction/Types.antt =====
-- The data of native/include/wotex_matter/interaction.hpp.
use wotex_matter.Base.{ℕ, Bool, List, Option, Bytes, ◌==◌, ◌&&◌}
use wotex_matter.Value.Types.{Element}

pub data InteractionKind : Type 0 where
  read_attribute read_attributes read_events write invoke : InteractionKind

pub data InteractionEffect : Type 0 where
  none unknown : InteractionEffect

pub record PathSelector : Type 0 where
  pub fabric_id : ℕ
  pub node_id : ℕ
  pub endpoint : Option ℕ
  pub cluster : Option ℕ
  pub member : Option ℕ

pub record ConcretePath : Type 0 where
  pub fabric_id : ℕ
  pub node_id : ℕ
  pub endpoint : ℕ
  pub cluster : ℕ
  pub member : ℕ

pub record InteractionRequest : Type 0 where
  pub kind : InteractionKind
  pub fabric_id : ℕ
  pub node_id : ℕ
  pub paths : List PathSelector
  pub value : Option Element
  pub expected_data_version : Option ℕ
  pub timed_request_timeout_ms : Option ℕ
  pub minimum_event_number : Option ℕ
  pub timeout_ms : ℕ

pub record InteractionError : Type 0 where
  pub code : Bytes
  pub status : Option ℕ
  pub cluster_status : Option ℕ
  pub effect : InteractionEffect

pub record AttributeData : Type 0 where
  pub path : ConcretePath
  pub value : Element
  pub data_version : Option ℕ

pub data TimestampKind : Type 0 where
  system epoch : TimestampKind

pub record EventData : Type 0 where
  pub path : ConcretePath
  pub value : Element
  pub event_number : ℕ
  pub priority : ℕ
  pub timestamp_kind : TimestampKind
  pub timestamp_value : ℕ

pub record PathResult : Type 0 where
  pub path : ConcretePath
  pub attribute : Option AttributeData
  pub event : Option EventData
  pub error : Option InteractionError

pub record InteractionResponse : Type 0 where
  pub is_ok : Bool
  pub error : Option InteractionError
  pub results : List PathResult
  pub response_path : Option ConcretePath
  pub response_value : Option Element
  pub status : ℕ
  pub cluster_status : Option ℕ

unfoldable pub same_path : ConcretePath → ConcretePath → Bool
same_path left right =
    left.fabric_id == right.fabric_id
    && left.node_id == right.node_id
    && left.endpoint == right.endpoint
    && left.cluster == right.cluster
    && left.member == right.member
