-- ===== src/Rpc/Functions.antt =====
-- The table of functions of rpc/rpc_server.h, and a request for a function that is not in it.
use c_rpc.Base.{
  ℕ, ◌≡◌, refl, ap, ◌∙◌, List, [], ◌∷◌, Option, none, some, true, false, str_eq, str_eq_refl,
  str_eq→eq, if◌then◌else◌, arith, Bool-cases, inl, inr,
}
use mathlib.Core.Path.{fun_ext}
use c_rpc.Wire.Buffer.{Buffer, ok, throw, runtime_error}
use c_rpc.Wire.Serializer.{Ty, Val, Vals, read_string}
use c_rpc.Protocol.{Message, type_code, rpc_request}
use c_rpc.Rpc.Server.{
  RpcServer, Func, find_func, set_func, erase_func, call_func, call, register_func, delete_func,
  handle_client_request, handle_msg,
}

-- One value for a name.
abbrev pub Unique : List (List ℕ × Func) → Type 0
Unique [] = Unit {0}
Unique ((k, g) ∷ fs) = (find_func k fs ≡ none) × Unique fs

different : (a b c : List ℕ) → str_eq a b ≡ false → str_eq c a ≡ true → str_eq c b ≡ false
different a b c h k = elim (Bool-cases (str_eq c b)) [
  | inl same ↦ absurd (ground (arith, h, str_eq_refl a, ap (λ x. str_eq x b) (str_eq→eq c a k)))
  | inr other ↦ other
]

find_func-set_func :
    (name other : List ℕ) (f : Func) (fs : List (List ℕ × Func))
    → find_func other (set_func name f fs)
      ≡ (if str_eq other name then some f else find_func other fs)
unfolding find_func set_func
find_func-set_func name other f [] = refl
find_func-set_func name other f ((k, g) ∷ fs) = elim (Bool-cases (str_eq name k)) [
  | inl same ↦ ground (arith, same, ap (str_eq other) (str_eq→eq name k same))
  | inr differ ↦ elim (Bool-cases (str_eq other name)) [
    | inl named ↦ ground (
      arith,
      differ,
      named,
      different name k other differ named,
      find_func-set_func name other f fs,
    )
    | inr not_named ↦ ground (arith, differ, not_named, find_func-set_func name other f fs)
  ]
]

find_func-erase_func :
    (name other : List ℕ) (fs : List (List ℕ × Func))
    → Unique fs
    → find_func other (erase_func name fs)
      ≡ (if str_eq other name then none else find_func other fs)
unfolding find_func erase_func
find_func-erase_func name other [] u = ground arith
find_func-erase_func name other ((k, g) ∷ fs) (n, u) = elim (Bool-cases (str_eq name k)) [
  | inl same ↦ elim (Bool-cases (str_eq other k)) [
    | inl found ↦ ground (
      arith,
      same,
      found,
      n,
      ap (str_eq other) (str_eq→eq name k same),
      ap (λ x. find_func x fs) (str_eq→eq other k found),
    )
    | inr missed ↦ ground (arith, same, missed, ap (str_eq other) (str_eq→eq name k same))
  ]
  | inr differ ↦ elim (Bool-cases (str_eq other name)) [
    | inl named ↦ ground (
      arith,
      differ,
      named,
      different name k other differ named,
      find_func-erase_func name other fs u,
    )
    | inr not_named ↦ ground (arith, differ, not_named, find_func-erase_func name other fs u)
  ]
]

swapped : (a b : List ℕ) → str_eq a b ≡ false → str_eq b a ≡ false
swapped a b h = elim (Bool-cases (str_eq b a)) [
  | inl same ↦ absurd (ground (arith, h, str_eq_refl a, ap (str_eq a) (str_eq→eq b a same)))
  | inr other ↦ other
]

set_func-Unique :
    (name : List ℕ) (f : Func) (fs : List (List ℕ × Func)) → Unique fs → Unique (set_func name f fs)
unfolding set_func find_func
set_func-Unique name f [] u = (refl, tt)
set_func-Unique name f ((k, g) ∷ fs) (n, u) = elim (Bool-cases (str_eq name k)) [
  | inl same ↦ rw same (n, u)
  | inr differ ↦ rw differ (
    (ground (arith, n, swapped name k differ, find_func-set_func name k f fs)),
    set_func-Unique name f fs u,
  )
]

erase_func-Unique :
    (name : List ℕ) (fs : List (List ℕ × Func)) → Unique fs → Unique (erase_func name fs)
unfolding erase_func
erase_func-Unique name [] u = tt
erase_func-Unique name ((k, g) ∷ fs) (n, u) = elim (Bool-cases (str_eq name k)) [
  | inl same ↦ rw same u
  | inr differ ↦
      rw differ ((ground (arith, n, find_func-erase_func name k fs u)), erase_func-Unique name fs u)
]

-- What a server does to its table.
pub data Op : Type 1 where
  registers : (ts : List Ty) (r : Ty) → List ℕ → (Vals ts → Val r) → Op
  deletes : List ℕ → Op

unfoldable pub run : List Op → RpcServer → RpcServer
run [] s = s
run (registers ts r name f ∷ ops) s = run ops (register_func ts r name f s)
run (deletes name ∷ ops) s = run ops (delete_func name s)

-- The same on a function of the name.
abbrev pub replay : List Op → (List ℕ → Option Func) → List ℕ → Option Func
replay [] table = table
replay (registers ts r name f ∷ ops) table =
    replay ops (λ other. if str_eq other name then some (call_func ts r f) else table other)
replay (deletes name ∷ ops) table =
    replay ops (λ other. if str_eq other name then none else table other)

-- What a call finds under each name.
abbrev pub finds : RpcServer → List ℕ → Option Func
finds s name = find_func name s.m_funcs

run_from :
    (ops : List Op) (s : RpcServer) → Unique s.m_funcs → finds (run ops s) ≡ replay ops (finds s)
unfolding run register_func delete_func
run_from [] s u = refl
run_from (registers ts r name f ∷ ops) s u =
    run_from ops _ (set_func-Unique name (call_func ts r f) s.m_funcs u)
    ∙ ap (replay ops)
        (fun_ext (λ other. find_func-set_func name other (call_func ts r f) s.m_funcs))
run_from (deletes name ∷ ops) s u =
    run_from ops _ (erase_func-Unique name s.m_funcs u)
    ∙ ap (replay ops) (fun_ext (λ other. find_func-erase_func name other s.m_funcs u))

-- From an empty table, whatever functions are registered and deleted in whatever order, a call finds
-- what was registered last under its name and not deleted since: the list refines a function.
pub run_refines :
    (ops : List Op) (seq : ℕ)
    → finds (run ops (record { m_funcs = []; seq = seq })) ≡ replay ops (λ name. none)
unfolding find_func
run_refines ops seq = run_from ops (record { m_funcs = []; seq = seq }) tt

-- A request whose name is in no table is not answered: the call throws, and no code is sent back.
pub unknown_function :
    (m : Message) (f_name : List ℕ) (params : Buffer) (s : RpcServer)
    → m.type_of ≡ type_code rpc_request
    → read_string m.serializer ≡ ok (f_name, params)
    → find_func f_name s.m_funcs ≡ none
    → handle_msg m s ≡ throw runtime_error
unfolding handle_msg handle_client_request call
unknown_function m f_name params s t e n = ground (arith, t, e, n)
