-- ===== src/Protocol.antt =====
-- `Message` of rpc/rpc_protocol.h. The serializer that a message points to is part of the message:
-- the copies that the source makes of a message are not used side by side.
pub mod Stream
pub mod Framing
pub mod Takes
pub mod Arrival
pub mod Decoding
pub mod Send
mod Examples
use c_rpc.Base.{ℕ, ◌+◌, ◌%◌, ◌^◌, length}
use c_rpc.Wire.Buffer.{
  Buffer, Reader, Result, ok, throw, hang, empty_buffer, ◌>>=◌, pure, ◌⨾◌, write_uint8,
  write_uint64, read_uint8, read_uint32, read_uint64,
}
use c_rpc.Wire.Serializer.{write_string}

-- `enum Type : uint8_t`, in order from 0.
pub data MessageType : Type 0 where
  rpc_request rpc_client_init rpc_service_discover rpc_subscribe rpc_response rpc_server_init
        rpc_service_delete rpc_service_register rpc_service_register_response
        rpc_service_discover_response rpc_subscribe_response rpc_publish heart_beat raft_redirect
        rpc_default :
      MessageType

-- `enum ErrCode : uint8_t`
pub data ErrCode : Type 0 where
  success error_callname error_callparams errcode_default : ErrCode

-- The number of a type: what a message carries.
abbrev pub type_code : MessageType → ℕ
type_code rpc_request = 0
type_code rpc_client_init = 1
type_code rpc_service_discover = 2
type_code rpc_subscribe = 3
type_code rpc_response = 4
type_code rpc_server_init = 5
type_code rpc_service_delete = 6
type_code rpc_service_register = 7
type_code rpc_service_register_response = 8
type_code rpc_service_discover_response = 9
type_code rpc_subscribe_response = 10
type_code rpc_publish = 11
type_code heart_beat = 12
type_code raft_redirect = 13
type_code rpc_default = 14

abbrev pub err_code : ErrCode → ℕ
err_code success = 0
err_code error_callname = 1
err_code error_callparams = 2
err_code errcode_default = 3

pub record Message : Type 0 where
  pub magic : ℕ
  pub version : ℕ
  pub type_of : ℕ
  pub err : ℕ
  pub seq : ℕ
  pub content_lenth : ℕ
  pub serializer : Buffer

-- The constructor: `seq` is `++SEQ`, so the counter comes in and its next value goes out.
-- `contentLenth` has no initial value in the source; it is 0 here.
unfoldable pub new_message : ℕ → ℕ → ℕ → ℕ → Message × ℕ
new_message kind err_code_of version SEQ =
    let seq = (SEQ + 1) % 2 ^ 64 in
    (
      record {
        magic = 0x66;
        version = version;
        type_of = kind;
        err = err_code_of;
        seq = seq;
        content_lenth = 0;
        serializer = empty_buffer;
      },
      seq,
    )

-- `<< magic << version << type << errCode << seq`
unfoldable pub write_header : Message → Buffer → Buffer
write_header m =
    write_uint8 m.magic
    ⨾ (write_uint8 m.version ⨾ (write_uint8 m.type_of ⨾ (write_uint8 m.err ⨾ write_uint64 m.seq)))

unfoldable pub encode : Message → Buffer → Message
encode m s = record m {
  content_lenth = length s.m_data;
  serializer = (write_header m ⨾ write_string s.m_data) m.serializer;
}

-- The members that `decode` assigns, and the serializer after it.
unfoldable pub read_fields : Buffer → Reader Message
read_fields serializer = do
  magic ← read_uint8
  version ← read_uint8
  type_of ← read_uint8
  err ← read_uint8
  seq ← read_uint64
  content_lenth ← read_uint64
  pure (record {
    magic = magic;
    version = version;
    type_of = type_of;
    err = err;
    seq = seq;
    content_lenth = content_lenth;
    serializer = serializer;
  })

unfoldable pub decode : Message → Result Message
decode m = elim (read_fields m.serializer m.serializer) [
  | ok (m', s) ↦ ok (record m' { serializer = s })
  | throw e ↦ throw e
  | hang ↦ hang
]

-- `>> tmp >> size >> size` of `Socket::receive(Message&)`: the length of the content.
unfoldable pub read_size : Reader ℕ
read_size = do tmp ← read_uint32; size ← read_uint64; read_uint64
