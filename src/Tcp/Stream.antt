-- ===== src/Tcp/Stream.antt =====
-- The bytes of a connection (network/net/TcpConnection.cpp, `sendInLoop`): what was sent is what the
-- kernel took and then what is pending, in order.
use turbo_multimedia_server.Common.{
  ℕ, zero, suc, ◌+◌, ◌-◌, ◌%◌, ◌≡◌, refl, sym, ap, ap₂, ◌∙◌, ◌≤◌, ◌<◌, inl, inr, ◌⊎◌, false, List,
  [], ◌∷◌, ◌++◌, append_assoc, append-nil, length, take, drop, ltb, ◌==◌, ==_iff, if◌then◌else◌,
  size_mod, add_size, sub_size, arith, take-append-drop, drop-append_left, drop-append_right,
  drop_all, Bool-cases, ltb→lt, not-ltb→le,
}
use turbo_multimedia_server.Tcp.{
  Iovec, refused, took, TcpConnection, range, addresses, take_sent, complete, queued, send_direct,
  send_in_loop,
}

range_cong : (a b n : ℕ) → a % size_mod ≡ b % size_mod → range a n ≡ range b n
range_cong a b zero h = refl
range_cong a b (suc n) h = ap₂ (λ x xs. x ∷ xs) h (range_cong (a + 1) (b + 1) n (omega arith))

pub length-range : (a n : ℕ) → length (range a n) ≡ n
length-range a zero = refl
length-range a (suc n) = omega (arith, length-range (a + 1) n)

drop-range : (n a l : ℕ) → n ≤ l → drop n (range a l) ≡ range (a + n) (l - n)
drop-range zero a l h = ap₂ range {x = a} {u = l} (omega arith) (omega arith)
drop-range (suc n) a zero h = elim h [ ]
drop-range (suc n) a (suc l) h =
    drop-range n (a + 1) l (omega arith) ∙ ap₂ range (omega arith) (omega arith)

-- The rest of a range, from a wrapped address on.
pub drop-range_wrapped : (n a l : ℕ) → n ≤ l → drop n (range a l) ≡ range (add_size a n) (l - n)
drop-range_wrapped n a l h =
    drop-range n a l h ∙ range_cong (a + n) (add_size a n) (l - n) (omega arith)

pub addresses-append : (ps qs : List Iovec) → addresses (ps ++ qs) ≡ addresses ps ++ addresses qs
addresses-append [] qs = refl
addresses-append (p ∷ ps) qs =
    ap (λ l. range p.base p.len ++ l) (addresses-append ps qs)
    ∙ sym (append_assoc (range p.base p.len) (addresses ps) (addresses qs))

-- The inner loop of `onWrite` removes exactly the bytes that were sent, however they fall on the parts.
pub addresses-take_sent :
    (n : ℕ) (ps : List Iovec) → addresses (take_sent n ps) ≡ drop n (addresses ps)
unfolding take_sent
addresses-take_sent n [] = sym (drop_all n [] (omega arith))
addresses-take_sent n (p ∷ ps) = elim (Bool-cases (n == 0)) [
  | inl none_sent ↦ rw (none_sent, (==_iff n 0).0 none_sent)
  | inr some_sent ↦ elim (Bool-cases (ltb n p.len)) [
    | inl within ↦
        let l : n ≤ p.len = omega (arith, ltb→lt _ _ within) in
        rw (some_sent, within)
          (ap (λ r. r ++ addresses ps) (sym (drop-range_wrapped n p.base p.len l))
            ∙ sym (
                drop-append_left n (range p.base p.len) (addresses ps)
                  (omega (arith, length-range p.base p.len))))
    | inr beyond ↦
        rw (some_sent, beyond)
          (addresses-take_sent (n - p.len) ps
            ∙ sym (drop-append_right (n - p.len) (range p.base p.len) (addresses ps))
            ∙ ap (λ k. drop k (range p.base p.len ++ addresses ps))
                (omega (arith, length-range p.base p.len, not-ltb→le _ _ beyond)))
  ]
]

-- What the kernel took and what is pending.
abbrev pub stream : TcpConnection → List ℕ
stream c = c.wire ++ addresses c.io_vec_list

-- What a send keeps: an open connection, and the bytes in order.
abbrev pub Sends : ℕ → ℕ → TcpConnection → TcpConnection → Type 0
Sends buf len c c' = (c'.closed ≡ false) × (stream c' ≡ stream c ++ range buf len)

taken_all : (n a l : ℕ) → sub_size l n ≡ 0 → n ≤ l → l < size_mod → take n (range a l) ≡ range a l
taken_all n a l e h s =
    sym (append-nil (take n (range a l)))
    ∙ ap (λ t. take n (range a l) ++ t)
        (sym (drop_all n (range a l) (omega (arith, length-range a l))))
    ∙ take-append-drop n (range a l)

complete-stream :
    (c : TcpConnection) → ((complete c).closed ≡ c.closed) × (stream (complete c) ≡ stream c)
complete-stream c = elim (Bool-cases c.has_write_complete_cb) [
  | inl b ↦ rw b (refl, refl)
  | inr b ↦ rw b (refl, refl)
]

module _ (n e buf len : ℕ) (fits : n ≤ len) (small : len < size_mod) where
  send_direct-Sends :
      (c : TcpConnection)
      → c.closed ≡ false
      → c.io_vec_list ≡ []
      → Sends buf len c (send_direct (took n e) buf len c)
  unfolding send_direct
  send_direct-Sends c open_now empty = elim (Bool-cases (sub_size len n == 0)) [
    | inl all ↦
        let kept = complete-stream (record c { wire = c.wire ++ take n (range buf len) }) in
        rw all (
          kept.0 ∙ open_now,
          kept.1
              ∙ rw (
                empty,
                append-nil c.wire,
                append-nil (c.wire ++ take n (range buf len)),
                taken_all n buf len ((==_iff (sub_size len n) 0).0 all) fits small,
              ),
        )
    | inr rest ↦ rw rest (
      open_now,
      rw (empty, append-nil (range (add_size buf n) (sub_size len n)), append-nil c.wire)
          (append_assoc c.wire (take n (range buf len)) (range (add_size buf n) (sub_size len n))
            ∙ ap (λ t. c.wire ++ t)
                (ap (λ t. take n (range buf len) ++ t)
                    (ap (range (add_size buf n)) {y = len - n} (omega arith)
                      ∙ sym (drop-range_wrapped n buf len fits))
                  ∙ take-append-drop n (range buf len))),
    )
  ]

parts-cases : (ps : List Iovec) → (ps ≡ []) ⊎ ((p : Iovec) × (qs : List Iovec) × (ps ≡ p ∷ qs))
parts-cases [] = inl refl
parts-cases (p ∷ ps) = inr (p, ps, refl)

queued-stream :
    (buf len : ℕ) (c : TcpConnection)
    → stream (queued (record { base = buf; len = len }) c) ≡ stream c ++ range buf len
queued-stream buf len c =
    ap (λ t. c.wire ++ t)
      (addresses-append c.io_vec_list (record { base = buf; len = len } ∷ [])
        ∙ ap (λ t. addresses c.io_vec_list ++ t) (append-nil (range buf len)))
    ∙ sym (append_assoc c.wire (addresses c.io_vec_list) (range buf len))

-- A send on an open connection whose `write` takes some of the bytes, all of them or none keeps the
-- stream in order, whatever is pending: what the kernel took and what is pending is as before, and then
-- the bytes of the send.
pub send_in_loop-Sends :
    (n e buf len : ℕ) (c : TcpConnection)
    → n ≤ len
    → len < size_mod
    → c.closed ≡ false
    → Sends buf len c (send_in_loop (took n e) buf len c)
unfolding send_in_loop
send_in_loop-Sends n e buf len c fits small open_now = elim (parts-cases c.io_vec_list) [
  | inl empty ↦
      rw (open_now, elim_parts empty) (send_direct-Sends n e buf len fits small c open_now empty)
  | inr (p, ps, some_left) ↦ elim (Bool-cases (ltb 0 len)) [
    | inl some_bytes ↦
        rw (open_now, elim_parts some_left, some_bytes) (open_now, queued-stream buf len c)
    | inr no_bytes ↦
        rw (open_now, elim_parts some_left, no_bytes)
          (
            open_now,
            sym (append-nil (stream c))
                ∙ ap (λ k. stream c ++ range buf k) {x = 0}
                    (omega (arith, not-ltb→le _ _ no_bytes)),
          )
  ]
]
  where
    by_parts : List Iovec → TcpConnection
    by_parts parts = elim parts [
      | [] ↦ send_direct (took n e) buf len c
      | p ∷ ps ↦ if ltb 0 len then queued (record { base = buf; len = len }) c else c
    ]

    elim_parts :
        {parts : List Iovec} → c.io_vec_list ≡ parts → by_parts c.io_vec_list ≡ by_parts parts
    elim_parts = ap by_parts

-- A send, with the number of bytes that `write` takes if it is called.
pub record Send : Type 0 where
  pub buf : ℕ
  pub len : ℕ
  pub write_takes : ℕ

abbrev pub send_all : List Send → TcpConnection → TcpConnection
send_all [] c = c
send_all (s ∷ ss) c = send_all ss (send_in_loop (took s.write_takes 0) s.buf s.len c)

-- The bytes of sends.
abbrev pub given : List Send → List ℕ
given [] = []
given (s ∷ ss) = range s.buf s.len ++ given ss

-- `write` takes no more than it is offered, and lengths fit into `size_t`.
abbrev pub AllFit : List Send → Type 0
AllFit [] = Unit {0}
AllFit (s ∷ ss) = (s.write_takes ≤ s.len) × (s.len < size_mod) × AllFit ss

-- Whatever was sent on an open connection, one send after another, has gone to the kernel or is pending,
-- in the order of the sends, nothing twice and nothing lost, as long as no `write` fails.
pub send_all-stream :
    (ss : List Send) (c : TcpConnection)
    → AllFit ss
    → c.closed ≡ false
    → ((send_all ss c).closed ≡ false) × (stream (send_all ss c) ≡ stream c ++ given ss)
send_all-stream [] c f open_now = (open_now, sym (append-nil (stream c)))
send_all-stream (s ∷ ss) c f open_now =
    let (still, kept) = send_in_loop-Sends s.write_takes 0 s.buf s.len c f.0 f.1 open_now in
    let (open_then, rest) = send_all-stream ss _ f.2 still in
    (
      open_then,
      rest ∙ ap (λ t. t ++ given ss) kept ∙ append_assoc (stream c) (range s.buf s.len) (given ss),
    )

-- A first `write` that fails, be it that the socket would block: the connection queues one byte more
-- than it was given, from the address before the first, and waits for the socket.
pub send_in_loop_refused :
    (e buf len : ℕ) (c : TcpConnection)
    → c.closed ≡ false
    → c.io_vec_list ≡ []
    → len + 1 < size_mod
    → send_in_loop (refused e) buf len c
      ≡ queued
          (record { base = add_size buf (size_mod - 1); len = len + 1 })
          (record c { wire = c.wire ++ [] })
unfolding send_in_loop send_direct
send_in_loop_refused e buf len c open_now empty small =
    ap (λ b. if b then c else by_parts c.io_vec_list) open_now
    ∙ ap by_parts empty
    ∙ ap by_size {y = len + 1} (omega arith)
    ∙ rw (positive) refl
  where
    by_size : ℕ → TcpConnection
    by_size size =
        if size == 0
        then complete (record c { wire = c.wire ++ [] })
        else queued (record { base = add_size buf (size_mod - 1); len = size })
            (record c { wire = c.wire ++ [] })

    by_parts : List Iovec → TcpConnection
    by_parts parts = elim parts [
      | [] ↦ by_size (sub_size len (size_mod - 1))
      | p ∷ ps ↦ if ltb 0 len then queued (record { base = buf; len = len }) c else c
    ]

    positive : (len + 1 == 0) ≡ false
    positive = ground arith
