-- ===== src/Env/Messages.antt =====
-- The structures of knot_protocol.h as src/msg.c names their fields. `V` is `knot_value_types`, a
-- union whose layout is the header's.
use knot_service_source.Common.{ℕ, List}

-- A C string or a run of bytes.
abbrev pub Bytes : Type 0
Bytes = List ℕ

pub record MsgRegister : Type 0 where
  pub id : ℕ
  pub dev_name : Bytes

pub record MsgAuthentication : Type 0 where
  pub uuid : Bytes
  pub token : Bytes

pub record MsgSchema : Type 0 where
  pub sensor_id : ℕ
  pub value_type : ℕ
  pub unit : ℕ
  pub type_id : ℕ
  pub name : Bytes

pub record Header : Type 0 where
  pub kind : ℕ
  pub payload_len : ℕ

pub record MsgConfig (V : Type 0) : Type 0 where
  pub hdr : Header
  pub sensor_id : ℕ
  pub event_flags : ℕ
  pub time_sec : ℕ
  pub lower_limit : V
  pub upper_limit : V

pub record MsgData (V : Type 0) : Type 0 where
  pub hdr : Header
  pub sensor_id : ℕ
  pub payload : V

pub record MsgItem : Type 0 where
  pub hdr : Header
  pub sensor_id : ℕ

-- What the service pushes to a node.
pub data NodeMsg (V : Type 0) : Type 0 where
  config_msg : MsgConfig V → NodeMsg V
  data_msg : MsgData V → NodeMsg V
  item_msg : MsgItem → NodeMsg V

abbrev pub no_header : Header
no_header = record { kind = 0; payload_len = 0 }

abbrev pub header_of : {V : Type 0} → NodeMsg V → Header
header_of (config_msg m) = m.hdr
header_of (data_msg m) = m.hdr
header_of (item_msg m) = m.hdr
