-- ===== src/Registry/Discovery.antt =====
-- Discovery, handleServiceDiscover of rpc/rpc_register.cpp: a client asks for the addresses of a name.
use c_rpc.Base.{
  ℕ, suc, ◌-◌, ◌^◌, ◌≤◌, ◌<◌, ◌≡◌, refl, ap, ◌∙◌, List, [], ◌∷◌, ◌++◌, length, drop, All, false,
}
use c_rpc.Wire.Buffer.{Buffer, ok, empty_buffer}
use c_rpc.Wire.Serializer.{max_size}
use c_rpc.Wire.Reads.{IsValid, unread}
use c_rpc.Protocol.{Message}
use c_rpc.Tables.{IpPort, equal_range, str_lt}
use c_rpc.Tables.Fill.{emplace_all-IsSorted}
use c_rpc.Registry.Exchange.{ServiceFits, read_answer}
use c_rpc.Tables.Order.{str_lt_irrefl, IsSorted}
use c_rpc.Registry.{RpcRegister, write_services, receive_services, reply}
use c_rpc.Registry.Names.{
  for_each_name, for_each_name_lem, fold, services_of, discover_answer, handle_service_discover,
  write_names, NameFits,
}

fold_last :
    (ns : List (List ℕ)) (n last : List ℕ) → fold (λ f_name last. f_name) (ns ++ n ∷ []) last ≡ n
fold_last [] n last = refl
fold_last (x ∷ xs) n last = fold_last xs n x

handled_discover :
    (m : Message) (r : RpcRegister) (f_name : List ℕ) (b' : Buffer)
    → for_each_name (λ f_name last. f_name) (suc (length m.serializer.m_data)) [] m.serializer
      ≡ ok (f_name, b')
    → handle_service_discover m r ≡ ok (discover_answer m r f_name)
unfolding handle_service_discover reply
handled_discover m r f_name b' q = rw (q, handle_service_discover)

services_of-IsSorted : (f_name : List ℕ) (as_ : List IpPort) → IsSorted (services_of f_name as_)
services_of-IsSorted f_name [] = tt
services_of-IsSorted f_name (a ∷ as_) = (same f_name as_, services_of-IsSorted f_name as_)
  where
    same :
        (f_name : List ℕ) (as_ : List IpPort)
        → All (λ p. str_lt p.0 f_name ≡ false) (services_of f_name as_)
    same f_name [] = tt
    same f_name (a ∷ as_) = (str_lt_irrefl f_name, same f_name as_)

-- handleServiceDiscover, when it is called on a request for the addresses of names (handleMsg has no case
-- that calls it), makes an answer; whoever reads this answer, behind its header, into an empty table as a
-- client does has exactly the addresses of the last name, in the order of the registration centre. Names,
-- addresses and the number of the request fit their types, and the content is at most the largest string
-- less the header.
pub discovered :
    (ns : List (List ℕ)) (f_name : List ℕ) (m : Message) (r : RpcRegister) (b : Buffer)
    → All NameFits (ns ++ f_name ∷ [])
    → IsValid m.serializer
    → unread m.serializer ≡ (write_names (ns ++ f_name ∷ []) empty_buffer).m_data
    → All ServiceFits (services_of f_name (equal_range f_name r.m_addresses))
    → m.seq < 2 ^ 64
    → length
        (write_services (services_of f_name (equal_range f_name r.m_addresses)) empty_buffer).m_data
      ≤ max_size - 20
    → IsValid b
    → unread b ≡ drop 20 (discover_answer m r f_name).0.serializer.m_data
    → (b' : Buffer) × (handle_service_discover m r ≡ ok (discover_answer m r f_name))
      × (receive_services [] b ≡ ok (services_of f_name (equal_range f_name r.m_addresses), b'))
discovered ns f_name m r b hs v e fits seq len h u =
    let (b', q) =
      for_each_name_lem (λ f_name last. f_name) (ns ++ f_name ∷ []) [] m.serializer hs v e in
    let (b2, q2) =
      read_answer (services_of f_name (equal_range f_name r.m_addresses)) m.seq r b fits seq len h
        u in
    (
      b2,
      handled_discover m r f_name b' (q ∙ ap (λ n. ok (n, b')) (fold_last ns f_name [])),
      q2
          ∙ ap (λ t. ok (t, b2))
              (emplace_all-IsSorted [] (services_of f_name (equal_range f_name r.m_addresses))
                (services_of-IsSorted f_name (equal_range f_name r.m_addresses))),
    )
