-- ===== src/Udp/Order.antt =====
-- A datagram socket as a queue (network/UdpSocket.cpp, `sendInLoop` and `onWrite`): sends and writable
-- events, one after another.
use turbo_multimedia_server.Common.{
  arith, ℕ, zero, suc, ◌≡◌, refl, sym, ap, ◌∙◌, ◌<◌, inl, inr, true, false, List, [], ◌∷◌, ◌++◌,
  append_assoc, append-nil, length, take, drop, take-append-drop, replicate, leb, Result, ok, fail,
  unfinished, ◌>>=◌, Bool-cases, lt→ltb,
}
use turbo_multimedia_server.Tcp.{Answer, refused, took, retryable}
use turbo_multimedia_server.Tcp.Writes.{takes}
use turbo_multimedia_server.Udp.{
  UdpBufferNode, UdpSocket, complete, on_close, write_loop, on_write, send_in_loop, send_list,
}
use turbo_multimedia_server.Udp.Writes.{IsTimed, written, stopped, sent, with_nodes, on_write_lem}

-- A send with the answer of `sendto`, a list that is sent, and a writable event, in which `sendto` takes
-- some datagrams, with the number of bytes that it gives for each, and answers the next one with an error.
pub data Operation : Type 0 where
  sends : Answer → UdpBufferNode → Operation
  lists : List UdpBufferNode → Operation
  writable : List ℕ → ℕ → Operation

abbrev pub answers : List ℕ → ℕ → List Answer
answers [] e = refused e ∷ []
answers (k ∷ ks) e = took k 0 ∷ answers ks e

pub perform : Operation → UdpSocket → Result UdpSocket
perform (sends a node) s = ok (send_in_loop a node s)
perform (lists nodes) s = ok (send_list nodes s)
perform (writable ks e) s = on_write (answers ks e) s

pub perform_all : List Operation → UdpSocket → Result UdpSocket
unfolding perform
perform_all [] s = ok s
perform_all (o ∷ os) s = perform o s >>= perform_all os

-- The datagrams that an operation is given.
abbrev pub given : Operation → List UdpBufferNode
given (sends a node) = node ∷ []
given (lists nodes) = nodes
given (writable ks e) = []

abbrev pub all_given : List Operation → List UdpBufferNode
all_given [] = []
all_given (o ∷ os) = given o ++ all_given os

abbrev pub AllPositive : List ℕ → Type 0
AllPositive [] = Unit {0}
AllPositive (k ∷ ks) = (0 < k) × AllPositive ks

answers-takes :
    (ks : List ℕ) (e : ℕ)
    → AllPositive ks
    → (ls : List ℕ) × (answers ks e ≡ takes ls (refused e ∷ []))
answers-takes [] e h = ([], refl)
answers-takes (zero ∷ ks) e h = absurd (omega (arith, h.0))
answers-takes (suc k ∷ ks) e h =
    let (ls, same) = answers-takes ks e h.1 in (k ∷ ls, ap (λ a. took (suc k) 0 ∷ a) same)

-- A datagram that the kernel takes holds a byte.
abbrev pub HasBytes : Operation → Type 0
HasBytes (sends (took n e) node) = 0 < n
HasBytes (sends (refused e) node) = Unit {0}
HasBytes (lists nodes) = Unit {0}
HasBytes (writable ks e) = AllPositive ks

abbrev pub AllHaveBytes : List Operation → Type 0
AllHaveBytes [] = Unit {0}
AllHaveBytes (o ∷ os) = HasBytes o × AllHaveBytes os

-- What the kernel took, and then what is pending.
abbrev pub stream : UdpSocket → List UdpBufferNode
stream s = s.wire ++ s.buffer_list

-- The stream gets longer by `nodes`.
pub record Passes (nodes : List UdpBufferNode) (s s' : UdpSocket) : Type 0 where
  pub timed : IsTimed s'
  pub kept : stream s' ≡ stream s ++ nodes

complete-Passes :
    (nodes : List UdpBufferNode) (s s' : UdpSocket)
    → Passes nodes s s'
    → Passes nodes s (complete s')
complete-Passes nodes s s' p = elim (Bool-cases s'.has_write_complete_cb) [
  | inl b ↦ rw b (record { timed = p.timed; kept = p.kept })
  | inr b ↦ rw b (record { timed = p.timed; kept = p.kept })
]

pub on_close-Passes :
    (nodes : List UdpBufferNode) (s s' : UdpSocket)
    → Passes nodes s s'
    → Passes nodes s (on_close s')
unfolding on_close
on_close-Passes nodes s s' p = elim (Bool-cases s'.closed) [
  | inl b ↦ rw b (record { timed = p.timed; kept = p.kept })
  | inr b ↦ rw b (record { timed = p.timed; kept = p.kept })
]

stopped-Passes :
    (e : ℕ) (nodes : List UdpBufferNode) (s s' : UdpSocket)
    → Passes nodes s s'
    → Passes nodes s (stopped e s')
stopped-Passes e nodes s s' p = elim (Bool-cases (retryable e)) [
  | inl b ↦ rw b (record { timed = p.timed; kept = p.kept })
  | inr b ↦ rw b (on_close-Passes nodes s s' p)
]

pub send_in_loop-Passes :
    (a : Answer) (node : UdpBufferNode) (s : UdpSocket)
    → IsTimed s
    → HasBytes (sends a node)
    → Passes (node ∷ []) s (send_in_loop a node s)
unfolding send_in_loop
send_in_loop-Passes a node s t h = by_nodes a h s.buffer_list
  where
    by_nodes :
        (a : Answer)
        → HasBytes (sends a node)
        → (nodes : List UdpBufferNode)
        → Passes
            (node ∷ [])
            (record s { buffer_list = nodes })
            (send_in_loop a node (record s { buffer_list = nodes }))
    by_nodes (took n e) h [] = rw (lt→ltb 0 n h) (
        complete-Passes (node ∷ []) (record s { buffer_list = [] })
          (with_nodes [] (s.wire ++ (node ∷ [])) s)
          (record {
            timed = t;
            kept =
                append-nil (s.wire ++ (node ∷ []))
                ∙ ap (λ l. l ++ (node ∷ [])) (sym (append-nil s.wire));
          }))
    by_nodes (refused e) h [] = record { timed = t; kept = refl }
    by_nodes a h (pending ∷ rest) = record {
      timed = t;
      kept = sym (append_assoc s.wire (pending ∷ rest) (node ∷ []));
    }

pub send_list-Passes :
    (nodes : List UdpBufferNode) (s : UdpSocket) → IsTimed s → Passes nodes s (send_list nodes s)
unfolding send_list
send_list-Passes nodes s t = waiting (s.buffer_list ++ nodes)
  where
    s₁ : UdpSocket
    s₁ = record s { buffer_list = s.buffer_list ++ nodes }

    kept : stream s₁ ≡ stream s ++ nodes
    kept = sym (append_assoc s.wire s.buffer_list nodes)

    waiting :
        (all : List UdpBufferNode)
        → Passes nodes s (elim all [ [] ↦ s₁ | node ∷ rest ↦ record s₁ { writing = true } ])
    waiting [] = record { timed = t; kept = kept }
    waiting (node ∷ rest) = record { timed = t; kept = kept }

written-Passes : (taken e : ℕ) (s : UdpSocket) → IsTimed s → Passes [] s (written taken e s)
written-Passes taken e s t = by_nodes s.buffer_list
  where
    by_nodes :
        (nodes : List UdpBufferNode)
        → Passes []
            (record s { buffer_list = nodes })
            (written taken e (record s { buffer_list = nodes }))
    by_nodes [] =
        complete-Passes [] (record s { buffer_list = [] })
          (record s { buffer_list = []; writing = false })
          (record { timed = t; kept = sym (append-nil (s.wire ++ [])) })
    by_nodes (node ∷ rest) = elim (Bool-cases (leb (length (node ∷ rest)) taken)) [
      | inl enough ↦ rw enough (
          let p =
            complete-Passes [] (record s { buffer_list = node ∷ rest })
              (with_nodes [] (s.wire ++ (node ∷ rest)) s) (record { timed = t; kept = refl }) in
          record { timed = p.timed; kept = p.kept })
      | inr few ↦ rw few (
          stopped-Passes e [] (record s { buffer_list = node ∷ rest })
            (sent taken (record s { buffer_list = node ∷ rest }))
            (record {
              timed = t;
              kept =
                  append_assoc s.wire (take taken (node ∷ rest)) (drop taken (node ∷ rest))
                  ∙ ap (λ l. s.wire ++ l) (take-append-drop taken (node ∷ rest))
                  ∙ sym (append-nil (s.wire ++ (node ∷ rest)));
            }))
    ]

perform-Passes :
    (o : Operation) (s : UdpSocket)
    → IsTimed s
    → HasBytes o
    → (s' : UdpSocket) × (perform o s ≡ ok s') × Passes (given o) s s'
unfolding perform on_write
perform-Passes (sends a node) s t h = (_, refl, send_in_loop-Passes a node s t h)
perform-Passes (lists nodes) s t h = (_, refl, send_list-Passes nodes s t)
perform-Passes (writable ks e) s t h = elim (Bool-cases s.closed) [
  | inl over ↦
      (s, rw (on_write, over) refl, record { timed = t; kept = sym (append-nil (stream s)) })
  | inr open_now ↦
      let (ls, same) = answers-takes ks e h in
      let (w, wrote, timed) = on_write_lem ls e [] s t open_now in
      let p = written-Passes (length ls) e (record s { wheel = w }) timed in
      (_, ap (λ a. on_write a s) same ∙ wrote, record { timed = p.timed; kept = p.kept })
]

-- Whatever datagrams are sent, one at a time or in lists, and whenever the socket is writable: every
-- operation returns, and the datagrams that the kernel took and then those that are pending are the ones
-- that were given, each once and in order, behind those that were there before. This holds whatever
-- errors `sendto` has, that the socket would block among them, and across the closing of the socket, as
-- long as each datagram that the kernel takes, at once or when the socket is writable, holds a byte.
pub perform_all-stream :
    (os : List Operation) (s : UdpSocket)
    → IsTimed s
    → AllHaveBytes os
    → (s' : UdpSocket) × (perform_all os s ≡ ok s') × (stream s' ≡ stream s ++ all_given os)
unfolding perform_all
perform_all-stream [] s t h = (s, refl, sym (append-nil (stream s)))
perform_all-stream (o ∷ os) s t h =
    let (s₁, first, p) = perform-Passes o s t h.0 in
    let (s', rest, kept) = perform_all-stream os s₁ p.timed h.1 in
    (
      s',
      rw (first, rest),
      kept ∙ ap (λ l. l ++ all_given os) p.kept ∙ append_assoc (stream s) (given o) (all_given os),
    )

-- A datagram without a byte at the front of those that are pending: `sendto` takes it and gives 0, and
-- the loop of `onWrite` sends it again and again, however often.
pub write_loop_empty :
    (n : ℕ) (node : UdpBufferNode) (rest wire : List UdpBufferNode) (s : UdpSocket)
    → write_loop (replicate n (took 0 0)) (with_nodes (node ∷ rest) wire s) ≡ fail unfinished
unfolding write_loop
write_loop_empty zero node rest wire s = refl
write_loop_empty (suc n) node rest wire s = write_loop_empty n node rest (wire ++ (node ∷ [])) s
