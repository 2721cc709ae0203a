-- ===== src/XsProto.antt =====
-- inc/lixs/xs_proto_v1/xs_proto.hh and lib/lixs/xs_proto_v1: the protocol of a client's connection.
-- What the headers of Xen define is the parameter `XsWire`: the numbers of the message types, the
-- layout of a message's header, the largest payload, and the names of the error codes.
pub mod Args
pub mod Perms
pub mod Body
pub mod Ops
pub mod EachAnswer
pub mod Answers
pub mod Sizes
pub mod Rx
pub mod Tx
pub mod Watch
use lixs.Base.{ℕ, Bool, List}
use lixs.Base.Map.{Map}
use lixs.Base.Text.{Text}
use lixs.Errno.{Errno}

pub data MsgType : Type 0 where
  xs_debug xs_directory xs_read xs_get_perms xs_watch xs_unwatch : MsgType
  xs_transaction_start xs_transaction_end xs_introduce xs_release : MsgType
  xs_get_domain_path xs_write xs_mkdir xs_rm xs_set_perms xs_watch_event xs_error : MsgType
  xs_is_domain_introduced xs_resume xs_set_target xs_restrict xs_reset_watches : MsgType
  xs_unknown : ℕ → MsgType

-- `struct xsd_sockmsg`
pub record Hdr : Type 0 where
  pub type : ℕ
  pub req_id : ℕ
  pub tx_id : ℕ
  pub len : ℕ

pub record XsWire : Type 0 where
  pub type_of : ℕ → MsgType
  pub code_of : MsgType → ℕ
  pub hdr_size : ℕ
  pub decode_hdr : Text → Hdr
  pub encode_hdr : Hdr → Text
  pub payload_max : ℕ
  pub xsd_errors : List (Errno × Text)

pub record Message : Type 0 where
  pub type : MsgType
  pub req_id : ℕ
  pub tx_id : ℕ
  pub body : List Text
  pub terminator : Bool

-- A node of the `watch_map`: the address of its callback object, and whether its path was relative.
pub record WatchCb : Type 0 where
  pub addr : ℕ
  pub relative : Bool

-- `xs_proto_base`; `rx_body` is the memory from `rx_msg.body` on, with what earlier messages left
-- there.
pub record Proto : Type 0 where
  pub domid : ℕ
  pub dom_path : Text
  pub rx_hdr : Hdr
  pub rx_body : Text
  pub tx_queue : List Message
  pub watches : Map (Text × Text) WatchCb
