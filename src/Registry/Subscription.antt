-- ===== src/Registry/Subscription.antt =====
-- Subscriptions, handleSubscribe of rpc/rpc_register.cpp: which sockets the table has for a name.
use c_rpc.Base.{
  ℕ, suc, ◌≡◌, refl, sym, ap, ◌∙◌, List, [], ◌∷◌, ◌++◌, append-nil, append_assoc, length, All,
  Bool-cases, inl, inr, str_eq, str_eq→eq, if◌then◌else◌,
}
use c_rpc.Wire.Buffer.{Buffer, ok, empty_buffer}
use c_rpc.Wire.Reads.{IsValid, unread}
use c_rpc.Protocol.{Message, new_message, encode, rpc_subscribe_response}
use c_rpc.Tables.{Multimap, emplace, equal_range}
use c_rpc.Tables.Order.{IsSorted, emplace-IsSorted, equal_range-emplace, equal_range_other}
use c_rpc.Registry.{RpcRegister, reply}
use c_rpc.Registry.Names.{
  for_each_name, for_each_name_lem, fold, handle_subscribe, write_names, NameFits,
}

-- How often a socket subscribes to a name.
abbrev pub subscriptions : List ℕ → ℕ → List (List ℕ) → List ℕ
subscriptions f_name fd [] = []
subscriptions f_name fd (n ∷ ns) =
    if str_eq f_name n then fd ∷ subscriptions f_name fd ns else subscriptions f_name fd ns

fold_subscribed :
    (f_name : List ℕ) (fd : ℕ) (ns : List (List ℕ)) (t : Multimap ℕ)
    → IsSorted t
    → equal_range f_name (fold (λ n t. emplace (n, fd) t) ns t)
      ≡ equal_range f_name t ++ subscriptions f_name fd ns
fold_subscribed f_name fd [] t h = sym (append-nil (equal_range f_name t))
fold_subscribed f_name fd (n ∷ ns) t h = elim (Bool-cases (str_eq f_name n)) [
  | inl same ↦ rw same (
      fold_subscribed f_name fd ns (emplace (n, fd) t) (emplace-IsSorted (n, fd) t h)
      ∙ ap (λ q. q ++ subscriptions f_name fd ns)
          (rw (str_eq→eq f_name n same) (equal_range-emplace n fd t h))
      ∙ append_assoc (equal_range f_name t) (fd ∷ []) (subscriptions f_name fd ns))
  | inr other ↦ rw other (
      fold_subscribed f_name fd ns (emplace (n, fd) t) (emplace-IsSorted (n, fd) t h)
      ∙ ap (λ q. q ++ subscriptions f_name fd ns) (equal_range_other n f_name fd t other))
]

handled_subscribe :
    (fd : ℕ) (m : Message) (r : RpcRegister) (t : Multimap ℕ) (b' : Buffer)
    → for_each_name
        (λ f_name t. emplace (f_name, fd) t)
        (suc (length m.serializer.m_data))
        r.m_subscribes
        m.serializer
      ≡ ok (t, b')
    → handle_subscribe fd m r
      ≡ ok (reply rpc_subscribe_response m.seq empty_buffer (record r { m_subscribes = t }))
unfolding handle_subscribe reply
handled_subscribe fd m r t b' q = rw (q, handle_subscribe)

-- handleSubscribe on names that fit: the answer has the number of the request, and the table then has for
-- any name the sockets that it had, and that of the client once for each time that the client has given the
-- name. The table of subscriptions is in order, and what is unread of the message is what the client wrote.
pub handle_subscribe_lem :
    (fd : ℕ) (ns : List (List ℕ)) (m : Message) (r : RpcRegister)
    → All NameFits ns
    → IsSorted r.m_subscribes
    → IsValid m.serializer
    → unread m.serializer ≡ (write_names ns empty_buffer).m_data
    → (answer : Message) × (r' : RpcRegister) × (handle_subscribe fd m r ≡ ok (answer, r'))
      × (answer.seq ≡ m.seq)
      × (r'.m_addresses ≡ r.m_addresses)
      × ((f_name : List ℕ)
          → equal_range f_name r'.m_subscribes
            ≡ equal_range f_name r.m_subscribes ++ subscriptions f_name fd ns)
unfolding reply new_message encode
handle_subscribe_lem fd ns m r hs sorted v e =
    let subscribed = fold (λ f_name t. emplace (f_name, fd) t) ns r.m_subscribes in
    let (b', q) =
      for_each_name_lem (λ f_name t. emplace (f_name, fd) t) ns r.m_subscribes m.serializer hs v
        e in
    let answer =
      reply rpc_subscribe_response m.seq empty_buffer (record r { m_subscribes = subscribed }) in
    (
      answer.0,
      answer.1,
      handled_subscribe fd m r subscribed b' q,
      refl,
      refl,
      λ f_name. fold_subscribed f_name fd ns r.m_subscribes sorted,
    )
