-- ===== src/Rpc/Client.antt =====
-- `RpcCLient::call` of rpc/rpc_client.h: the request that it sends, and how it reads the response.
use c_rpc.Base.{ℕ, zero, suc, List, length, Option, none, some, if◌then◌else◌}
use c_rpc.Wire.Buffer.{Buffer, Reader, ok, hang, empty_buffer, ◌>>=◌, ◌⨾◌, is_read_end}
use c_rpc.Wire.Serializer.{Ty, Val, Vals, write_string, serialize, read_ref}
use c_rpc.Protocol.{Message, encode, new_message, type_code, rpc_request, err_code, success}

-- `<< f_name << args`: the name is a variable, the arguments are a tuple.
unfoldable pub request_content : (ts : List Ty) → List ℕ → Vals ts → Buffer
request_content ts f_name args = (write_string f_name ⨾ serialize ts args) empty_buffer

-- The request, and the counter `SEQ` after it.
unfoldable pub request : (ts : List Ty) → List ℕ → Vals ts → ℕ → Message × ℕ
request ts f_name args SEQ =
    let (message, SEQ') = new_message (type_code rpc_request) (err_code success) 0x01 SEQ in
    (encode message (request_content ts f_name args), SEQ')

-- `while(!s->isReadEnd()) (*s)>>result`, for at most `rounds` rounds. A `result` that is never read
-- has no value.
unfoldable pub read_results : (r : Ty) → ℕ → Option (Val r) → Reader (Option (Val r))
read_results r zero result b = hang
read_results r (suc rounds) result b =
    if is_read_end b then ok (result, b) else (read_ref r >>= λ v. read_results r rounds (some v)) b

unfoldable pub read_response : (r : Ty) → Reader (Option (Val r))
read_response r b = read_results r (suc (length b.m_data)) none b
