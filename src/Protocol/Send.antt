-- ===== src/Protocol/Send.antt =====
-- `Socket::send` of socket/socket.cpp against what the kernel answers, and the way of a message from one
-- socket to another.
use c_rpc.Base.{
  ℕ, zero, suc, ◌+◌, ◌-◌, ◌≤◌, ◌<◌, ◌≡◌, refl, ap, ◌∙◌, List, [], ◌∷◌, ◌++◌, length, take, drop,
  min, arith,
}
use c_rpc.Wire.Buffer.{Buffer, ok, empty_buffer}
use c_rpc.Wire.Serializer.{max_size}
use c_rpc.Protocol.{Message, encode}
use c_rpc.Protocol.Stream.{Event, bytes_of, receive_message}
use c_rpc.Protocol.Framing.{Flows}
use c_rpc.Protocol.Arrival.{MessageFits, receive-encode, at_start}

-- What `::send` answers from one call to the next: it takes up to that many of the bytes that are left
-- (it returns how many it took, no more than there are); not now (EWOULDBLOCK, EAGAIN, EINTR); an error.
pub data Answer : Type 0 where
  takes : ℕ → Answer
  not_now : Answer
  fails : Answer

-- How the call ends: with the number of bytes, with -1, or it goes on asking.
pub data Sent : Type 0 where
  total_bytes_sent : ℕ → Sent
  minus_one : Sent
  asks_on : Sent

-- The loop of `send`, with the bytes that are left and the number of those sent; and the bytes that the
-- kernel took.
unfoldable pub send_loop : List Answer → List ℕ → ℕ → Sent × List ℕ
send_loop as_ [] total = (total_bytes_sent total, [])
send_loop [] (b ∷ bs) total = (asks_on, [])
send_loop (takes n ∷ as_) (b ∷ bs) total =
    let rest = send_loop as_ (drop n (b ∷ bs)) (total + min n (length (b ∷ bs))) in
    (rest.0, take n (b ∷ bs) ++ rest.1)
send_loop (not_now ∷ as_) (b ∷ bs) total = send_loop as_ (b ∷ bs) total
send_loop (fails ∷ as_) (b ∷ bs) total = (minus_one, [])

unfoldable pub send : List Answer → List ℕ → Sent × List ℕ
send as_ data_ = send_loop as_ data_ 0

-- send(Message&)
unfoldable pub send_message : List Answer → Message → Sent × List ℕ
unfolding send
send_message as_ m = send as_ m.serializer.m_data

take-drop : (n : ℕ) (xs : List ℕ) → take n xs ++ drop n xs ≡ xs
take-drop zero xs = refl
take-drop (suc n) [] = refl
take-drop (suc n) (x ∷ xs) = ap (◌∷◌ x) (take-drop n xs)

length_left : (n : ℕ) (xs : List ℕ) → min n (length xs) + length (drop n xs) ≡ length xs
length_left zero xs = omega arith
length_left (suc n) [] = omega arith
length_left (suc n) (x ∷ xs) = omega (arith, length_left n xs)

-- What a call that returns the number of the bytes has sent.
send_loop-all :
    (as_ : List Answer) (xs : List ℕ) (total n : ℕ)
    → (send_loop as_ xs total).0 ≡ total_bytes_sent n
    → ((send_loop as_ xs total).1 ≡ xs) × (n ≡ total + length xs)
unfolding send_loop
send_loop-all as_ [] total n e = (refl, ground (arith, e))
send_loop-all [] (b ∷ bs) total n e = absurd (ground (arith, e))
send_loop-all (takes k ∷ as_) (b ∷ bs) total n e =
    let (p, q) = send_loop-all as_ (drop k (b ∷ bs)) (total + min k (length (b ∷ bs))) n e in
    (ap (◌++◌ (take k (b ∷ bs))) p ∙ take-drop k (b ∷ bs), omega (arith, q, length_left k (b ∷ bs)))
send_loop-all (not_now ∷ as_) (b ∷ bs) total n e = send_loop-all as_ (b ∷ bs) total n e
send_loop-all (fails ∷ as_) (b ∷ bs) total n e = absurd (ground (arith, e))

-- No answer is an error, and no call that takes bytes takes none.
abbrev pub Progresses : List Answer → Type 0
Progresses [] = Unit {0}
Progresses (takes n ∷ as_) = (0 < n) × Progresses as_
Progresses (not_now ∷ as_) = Progresses as_
Progresses (fails ∷ as_) = ⊥

abbrev pub count_takes : List Answer → ℕ
count_takes [] = 0
count_takes (takes n ∷ as_) = suc (count_takes as_)
count_takes (not_now ∷ as_) = count_takes as_
count_takes (fails ∷ as_) = count_takes as_

send_loop-ends :
    (as_ : List Answer) (xs : List ℕ) (total : ℕ)
    → Progresses as_
    → length xs ≤ count_takes as_
    → (send_loop as_ xs total).0 ≡ total_bytes_sent (total + length xs)
unfolding send_loop
send_loop-ends as_ [] total h k = ap total_bytes_sent (omega arith)
send_loop-ends [] (b ∷ bs) total h k = elim k [ ]
send_loop-ends (takes n ∷ as_) (b ∷ bs) total (p, h) k =
    send_loop-ends as_ (drop n (b ∷ bs)) (total + min n (length (b ∷ bs))) h
      (omega (arith, length_left n (b ∷ bs)))
    ∙ ap total_bytes_sent (omega (arith, length_left n (b ∷ bs)))
send_loop-ends (not_now ∷ as_) (b ∷ bs) total h k = send_loop-ends as_ (b ∷ bs) total h k
send_loop-ends (fails ∷ as_) (b ∷ bs) total h k = absurd h

-- A socket that makes progress, with no error, for as many calls as there are bytes: `send` returns the
-- number of the bytes, and the kernel has taken all of them, in order.
pub send_ends :
    (as_ : List Answer) (data_ : List ℕ)
    → Progresses as_
    → length data_ ≤ count_takes as_
    → send as_ data_ ≡ (total_bytes_sent (length data_), data_)
unfolding send
send_ends as_ data_ h k =
    let e : (send_loop as_ data_ 0).0 ≡ total_bytes_sent (length data_) =
      send_loop-ends as_ data_ 0 h k ∙ ap total_bytes_sent (omega arith) in
    let (all, n) = send_loop-all as_ data_ 0 (length data_) e in ground (arith, e, all)

-- A message that `send` says it has sent is received: whatever pieces the kernel took and delivers, and
-- whatever follows, `receive` returns the number that `send` returned, and has the bytes of the message
-- on an empty serializer, over a connection that neither fails nor closes. The members fit their types,
-- and the content is at most the largest string less the header.
pub sent_received :
    (as_ : List Answer) (m : Message) (s : Buffer) (n : ℕ) (es : List Event) (rest : List ℕ)
    → MessageFits m
    → m.serializer ≡ empty_buffer
    → length s.m_data ≤ max_size - 20
    → (send_message as_ (encode m s)).0 ≡ total_bytes_sent n
    → Flows es
    → bytes_of es ≡ (send_message as_ (encode m s)).1 ++ rest
    → (es' : List Event) × (receive_message empty_buffer es
        ≡ ok (n, at_start (encode m s).serializer.m_data, es'))
      × (bytes_of es' ≡ rest)
      × Flows es'
unfolding send_message send
sent_received as_ m s n es rest fits empty len e flows q =
    let (all, total) = send_loop-all as_ (encode m s).serializer.m_data 0 n e in
    let same : length (encode m s).serializer.m_data ≡ n = omega (arith, total) in
    let (es', run, left, flows') =
      (receive-encode m s fits empty len).run es rest flows (q ∙ ap (λ xs. xs ++ rest) all) in
    (es', run ∙ ap (λ k. ok (k, at_start (encode m s).serializer.m_data, es')) same, left, flows')
