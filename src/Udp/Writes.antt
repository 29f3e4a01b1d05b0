-- ===== src/Udp/Writes.antt =====
-- `UdpSocket::onWrite` and `sendInLoop` (network/UdpSocket.cpp): what becomes of the datagrams.
use turbo_multimedia_server.Common.{
  ℕ, suc, ◌≡◌, refl, ap, ◌∙◌, ◌≤◌, ◌<◌, inl, inr, false, List, [], ◌∷◌, ◌++◌, append_assoc, length,
  take, drop, leb, if◌then◌else◌, Result, ok, ◌>>=◌, arith, Bool-cases, lt→ltb, leb→le, not-leb→lt,
}
use turbo_multimedia_server.Timing.{TimingWheel}
use turbo_multimedia_server.Timing.Idle.{IsTimer, extend-IsTimer}
use turbo_multimedia_server.Tcp.{Answer, refused, retryable}
use turbo_multimedia_server.Tcp.Writes.{takes}
use turbo_multimedia_server.Udp.{
  UdpBufferNode, UdpSocket, complete, drained, on_close, extend_life, write_loop, on_write,
}

abbrev pub with_nodes : List UdpBufferNode → List UdpBufferNode → UdpSocket → UdpSocket
with_nodes nodes wire s = record s { buffer_list = nodes; wire = wire }

-- The first `n` pending datagrams have gone to the kernel.
abbrev pub sent : ℕ → UdpSocket → UdpSocket
sent n s = with_nodes (drop n s.buffer_list) (s.wire ++ take n s.buffer_list) s

-- What an error of `sendto` does.
abbrev pub stopped : ℕ → UdpSocket → UdpSocket
stopped e s = if retryable e then s else on_close s

write_loop_stops :
    (ks : List ℕ) (e : ℕ) (answers : List Answer) (nodes wire : List UdpBufferNode) (s : UdpSocket)
    → length ks < length nodes
    → write_loop (takes ks (refused e ∷ answers)) (with_nodes nodes wire s)
      ≡ ok (stopped e (with_nodes (drop (length ks) nodes) (wire ++ take (length ks) nodes) s))
unfolding write_loop
write_loop_stops [] e answers [] wire s h = absurd (omega arith)
write_loop_stops [] e answers (node ∷ nodes) wire s h = elim (Bool-cases (retryable e)) [
  | inl again ↦ rw again refl
  | inr over ↦ rw over refl
]
write_loop_stops (k ∷ ks) e answers [] wire s h = absurd (omega arith)
write_loop_stops (k ∷ ks) e answers (node ∷ []) wire s h = absurd (omega arith)
write_loop_stops (k ∷ ks) e answers (node ∷ next ∷ nodes) wire s h =
    rw (lt→ltb 0 (suc k) (omega arith)) (
      write_loop_stops ks e answers (next ∷ nodes) (wire ++ (node ∷ [])) s (omega arith)
      ∙ ap (λ w. ok (stopped e (with_nodes (drop (length ks) (next ∷ nodes)) w s)))
          (append_assoc wire (node ∷ []) (take (length ks) (next ∷ nodes))))

write_loop_drains :
    (ks : List ℕ) (answers : List Answer) (nodes wire : List UdpBufferNode) (s : UdpSocket)
    → 0 < length nodes
    → length nodes ≤ length ks
    → write_loop (takes ks answers) (with_nodes nodes wire s)
      ≡ ok (drained (with_nodes [] (wire ++ nodes) s))
unfolding write_loop
write_loop_drains ks answers [] wire s l h = absurd (omega arith)
write_loop_drains [] answers (node ∷ nodes) wire s l h = absurd (omega arith)
write_loop_drains (k ∷ ks) answers (node ∷ []) wire s l h = rw (lt→ltb 0 (suc k) (omega arith)) refl
write_loop_drains (k ∷ ks) answers (node ∷ next ∷ nodes) wire s l h =
    rw (lt→ltb 0 (suc k) (omega arith)) (
      write_loop_drains ks answers (next ∷ nodes) (wire ++ (node ∷ [])) s (omega arith)
        (omega arith)
      ∙ ap (λ w. ok (drained (with_nodes [] w s))) (append_assoc wire (node ∷ []) (next ∷ nodes)))

abbrev pub IsTimed : UdpSocket → Type 0
IsTimed s = IsTimer s.timeout_entry s.wheel

-- What a writable socket becomes, whose kernel takes as many datagrams as `taken` and answers `e` to
-- the next.
abbrev pub written : ℕ → ℕ → UdpSocket → UdpSocket
written taken e s = elim s.buffer_list [
  | [] ↦ complete (record s { writing = false })
  | node ∷ rest ↦
      if leb (length s.buffer_list) taken
      then drained (with_nodes [] (s.wire ++ s.buffer_list) s)
      else stopped e (sent taken s)
]

-- An open socket that is writable, and whose kernel takes some datagrams and answers the next one with
-- an error: the kernel has got the first pending datagrams, each once and in order, and the others are
-- pending still. Where none is left, the loop waits no longer for the socket and the completion callback
-- is called, if there is one; where the error is that the socket would block or that a signal came, the
-- socket stays as it is, and it is closed where the error is another one.
pub on_write_lem :
    (ks : List ℕ) (e : ℕ) (answers : List Answer) (s : UdpSocket)
    → IsTimed s
    → s.closed ≡ false
    → (w : TimingWheel) × (on_write (takes ks (refused e ∷ answers)) s
        ≡ ok (written (length ks) e (record s { wheel = w })))
      × IsTimed (record s { wheel = w })
unfolding on_write extend_life
on_write_lem ks e answers s t open_now =
    let (w, extended, timed) = extend-IsTimer s.max_idle_time s.timeout_entry s.wheel t in
    (
      w,
      ap (λ b. if b then ok s else loop s) open_now
          ∙ ap (λ r. (r >>= λ x. ok (record s { wheel = x })) >>= entered) extended
          ∙ by_nodes s.buffer_list w,
      timed,
    )
  where
    entered : UdpSocket → Result UdpSocket
    entered y = elim y.buffer_list [
      | [] ↦ ok (complete (record y { writing = false }))
      | node ∷ rest ↦ write_loop (takes ks (refused e ∷ answers)) y
    ]

    loop : UdpSocket → Result UdpSocket
    loop y = extend_life y >>= entered

    by_nodes :
        (nodes : List UdpBufferNode) (w : TimingWheel)
        → entered (record s { wheel = w; buffer_list = nodes })
          ≡ ok (written (length ks) e (record s { wheel = w; buffer_list = nodes }))
    by_nodes [] w = refl
    by_nodes (node ∷ rest) w = elim (Bool-cases (leb (length (node ∷ rest)) (length ks))) [
      | inl enough ↦ rw enough (
          write_loop_drains ks (refused e ∷ answers) (node ∷ rest) s.wire (record s { wheel = w })
            (omega arith) (leb→le _ _ enough))
      | inr few ↦ rw few (
          write_loop_stops ks e answers (node ∷ rest) s.wire (record s { wheel = w })
            (not-leb→lt _ _ few))
    ]
