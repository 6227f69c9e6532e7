-- ===== src/Rpc/Server.antt =====
-- `RpcServer` of rpc/rpc_server.h and rpc_server.cpp: the table of functions and the service of a
-- request.
use c_rpc.Base.{ℕ, List, [], ◌∷◌, Option, none, some, str_eq, ◌==◌, if◌then◌else◌}
use c_rpc.Wire.Buffer.{Buffer, Result, ok, throw, hang, runtime_error, empty_buffer}
use c_rpc.Wire.Serializer.{Ty, Val, Vals, write_ref, deserialize, read_string}
use c_rpc.Protocol.{
  Message, encode, new_message, type_code, rpc_request, rpc_response, err_code, success,
}

-- A `std::function<void(Serializer&, Serializer&)>`: the parameters, and the result written behind
-- what the second serializer holds.
abbrev pub Func : Type 0
Func = Buffer → Buffer → Result Buffer

-- `m_funcs` is an unordered_map, which has one value for a key. `seq` is the counter `SEQ` of
-- rpc_protocol.h.
pub record RpcServer : Type 0 where
  pub m_funcs : List (List ℕ × Func)
  pub seq : ℕ

unfoldable pub find_func : List ℕ → List (List ℕ × Func) → Option Func
find_func name [] = none
find_func name ((k, f) ∷ fs) =
    let rest = find_func name fs in if str_eq name k then some f else rest

-- `m_funcs[name] = f` and `m_funcs.erase(name)`
unfoldable pub set_func : List ℕ → Func → List (List ℕ × Func) → List (List ℕ × Func)
set_func name f [] = (name, f) ∷ []
set_func name f ((k, g) ∷ fs) =
    let rest = set_func name f fs in if str_eq name k then (k, f) ∷ fs else (k, g) ∷ rest

unfoldable pub erase_func : List ℕ → List (List ℕ × Func) → List (List ℕ × Func)
erase_func name [] = []
erase_func name ((k, g) ∷ fs) =
    let rest = erase_func name fs in if str_eq name k then fs else (k, g) ∷ rest

-- callFunc, for a function with arguments of the types `ts` and a result of the type `r`: `unpack`
-- reads the tuple of the arguments, and the result is a variable.
unfoldable pub call_func : (ts : List Ty) (r : Ty) → (Vals ts → Val r) → Func
call_func ts r func params returns = elim (deserialize ts params) [
  | ok (args, params') ↦ ok (write_ref r (func args) returns)
  | throw e ↦ throw e
  | hang ↦ hang
]

-- The local half of registerFunc and of deleteFunc.
unfoldable pub register_func :
    (ts : List Ty) (r : Ty) → List ℕ → (Vals ts → Val r) → RpcServer → RpcServer
register_func ts r name func s = record s {
  m_funcs = set_func name (call_func ts r func) s.m_funcs;
}

unfoldable pub delete_func : List ℕ → RpcServer → RpcServer
delete_func name s = record s { m_funcs = erase_func name s.m_funcs }

unfoldable pub call : List ℕ → Buffer → Buffer → RpcServer → Result Buffer
call name params returns s = elim (find_func name s.m_funcs) [
  | some f ↦ f params returns
  | none ↦ throw runtime_error
]

-- The answer to a request, whose result stands in `returns`.
unfoldable pub respond : Message → Buffer → RpcServer → Message × RpcServer
respond m returns s =
    let (message, SEQ') = new_message (type_code rpc_response) (err_code success) 0x01 s.seq in
    (encode (record message { seq = m.seq }) returns, record s { seq = SEQ' })

unfoldable pub handle_client_request : Message → RpcServer → Result (Message × RpcServer)
handle_client_request m s = elim (read_string m.serializer) [
  | ok (f_name, params) ↦ elim (call f_name params empty_buffer s) [
    | ok returns ↦ ok (respond m returns s)
    | throw e ↦ throw e
    | hang ↦ hang
  ]
  | throw e ↦ throw e
  | hang ↦ hang
]

-- The switch of handleMsg, on a message that has been decoded.
unfoldable pub handle_msg : Message → RpcServer → Result (Option Message × RpcServer)
handle_msg m s =
    if m.type_of == type_code rpc_request
    then elim (handle_client_request m s) [
      | ok (answer, s') ↦ ok (some answer, s')
      | throw e ↦ throw e
      | hang ↦ hang
    ]
    else ok (none, s)
