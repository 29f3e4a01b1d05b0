-- ===== src/Tcp/Writes.antt =====
-- `TcpConnection::onWrite` (network/net/TcpConnection.cpp): what becomes of the pending parts when the
-- socket is writable.
use turbo_multimedia_server.Common.{
  ℕ, zero, suc, ◌+◌, ◌-◌, ◌≡◌, refl, sym, ap, ◌∙◌, ◌≤◌, ◌<◌, inl, inr, ◌⊎◌, true, false, List, [],
  ◌∷◌, ◌++◌, append_assoc, append-nil, length, take, drop, ltb, ◌==◌, if◌then◌else◌, Result, ok,
  ◌>>=◌, size_mod, arith, length-append, length-drop, take-append-drop, drop_all, Bool-cases,
  ltb→lt, lt→ltb, take-nil, some,
}
use turbo_multimedia_server.Timing.Marks.{IsStorable}
use turbo_multimedia_server.Timing.State.{IsValid}
use turbo_multimedia_server.Timing.Release.{insert_made}
use turbo_multimedia_server.Timing.{once, make_entry, TimingWheel}
use turbo_multimedia_server.Timing.Idle.{IsTimer, extend-IsTimer}
use turbo_multimedia_server.Tcp.{
  Iovec, Answer, refused, took, returned, TcpConnection, range, addresses, taken, take_sent,
  after_writev, write_loop, on_write, extend_life, enable_check_idle_time, drained,
}
use turbo_multimedia_server.Tcp.Stream.{addresses-take_sent, length-range}

abbrev pub with_parts : List Iovec → List ℕ → TcpConnection → TcpConnection
with_parts parts w c = record c { io_vec_list = parts; wire = w }

-- Each part holds a byte.
abbrev pub AllSome : List Iovec → Type 0
AllSome [] = Unit {0}
AllSome (p ∷ ps) = (0 < p.len) × AllSome ps

-- Answers that take bytes.
abbrev pub takes : List ℕ → List Answer → List Answer
takes [] answers = answers
takes (k ∷ ks) answers = took (suc k) 0 ∷ takes ks answers

abbrev pub total : List ℕ → ℕ
total [] = 0
total (k ∷ ks) = suc k + total ks

take_sent-AllSome : (n : ℕ) (ps : List Iovec) → AllSome ps → AllSome (take_sent n ps)
unfolding take_sent
take_sent-AllSome n [] s = tt
take_sent-AllSome n (p ∷ ps) s = elim (Bool-cases (n == 0)) [
  | inl none_sent ↦ rw none_sent s
  | inr some_sent ↦ elim (Bool-cases (ltb n p.len)) [
    | inl within ↦ rw (some_sent, within) (omega (arith, ltb→lt _ _ within), s.1)
    | inr beyond ↦ rw (some_sent, beyond) (take_sent-AllSome (n - p.len) ps s.1)
  ]
]

parts-length : (ps : List Iovec) → AllSome ps → (ps ≡ []) ⊎ (0 < length (addresses ps))
parts-length [] s = inl refl
parts-length (p ∷ ps) s = inr (
    omega
      (arith, length-append (range p.base p.len) (addresses ps), length-range p.base p.len, s.0))

no_parts : (ps : List Iovec) → AllSome ps → addresses ps ≡ [] → ps ≡ []
no_parts ps s e = elim (parts-length ps s) [
  | inl n ↦ n
  | inr l ↦ absurd (omega (arith, ap length e))
]

take_sent_all :
    (n : ℕ) (ps : List Iovec) → AllSome ps → length (addresses ps) ≤ n → take_sent n ps ≡ []
take_sent_all n ps s h =
    no_parts (take_sent n ps) (take_sent-AllSome n ps s)
      (addresses-take_sent n ps ∙ drop_all n (addresses ps) h)

take_add : (m n : ℕ) (xs : List ℕ) → take (m + n) xs ≡ take m xs ++ take n (drop m xs)
take_add zero n xs = ap (λ k. take k xs) (omega arith)
take_add (suc m) n [] = take-nil (suc m + n) ∙ sym (take-nil n)
take_add (suc m) n (x ∷ xs) =
    ap (λ k. take k (x ∷ xs)) {y = suc (m + n)} (omega arith) ∙ ap (λ t. x ∷ t) (take_add m n xs)

-- One round of the loop.
round :
    (a : Answer) (answers : List Answer) (ps : List Iovec) (w : List ℕ) (c : TcpConnection)
    → ltb 0 (returned a) ≡ true
    → write_loop (a ∷ answers) (with_parts ps w c)
      ≡ after_writev
          (write_loop answers)
          (with_parts (take_sent (returned a) ps) (w ++ taken a (addresses ps)) c)
unfolding write_loop
round a answers ps w c h = rw h

after_writev_none :
    (again : TcpConnection → Result TcpConnection) (ps : List Iovec) (w : List ℕ)
    (c : TcpConnection)
    → ps ≡ []
    → after_writev again (with_parts ps w c) ≡ ok (drained (with_parts [] w c))
unfolding after_writev
after_writev_none again [] w c e = refl
after_writev_none again (p ∷ ps) w c e = cc

after_writev_some :
    (again : TcpConnection → Result TcpConnection) (ps : List Iovec) (w : List ℕ)
    (c : TcpConnection)
    → 0 < length (addresses ps)
    → after_writev again (with_parts ps w c) ≡ again (with_parts ps w c)
unfolding after_writev
after_writev_some again [] w c l = absurd (omega arith)
after_writev_some again (p ∷ ps) w c l = refl

-- The loop ends with nothing pending if the answers cover what is pending.
write_loop_drains :
    (ks : List ℕ) (answers : List Answer) (ps : List Iovec) (w : List ℕ) (c : TcpConnection)
    → AllSome ps
    → 0 < length (addresses ps)
    → length (addresses ps) ≤ total ks
    → write_loop (takes ks answers) (with_parts ps w c)
      ≡ ok (drained (with_parts [] (w ++ addresses ps) c))
write_loop_drains [] answers ps w c s l h = absurd (omega arith)
write_loop_drains (k ∷ ks) answers ps w c s l h =
    round (took (suc k) 0) (takes ks answers) ps w c (lt→ltb 0 (suc k) (omega arith))
    ∙ elim (parts-length left some_left) [
      | inl empty ↦
          after_writev_none (write_loop (takes ks answers)) left w' c empty
          ∙ ap (λ u. ok (drained (with_parts [] u c)))
              (sym (append-nil w') ∙ ap (λ t. w' ++ t) (sym (ap addresses empty)) ∙ whole)
      | inr more ↦
          after_writev_some (write_loop (takes ks answers)) left w' c more
          ∙ write_loop_drains ks answers left w' c some_left more (
              omega (
                arith,
                ap length (addresses-take_sent (suc k) ps),
                length-drop (suc k) (addresses ps),
              ))
          ∙ ap (λ u. ok (drained (with_parts [] u c))) whole
    ]
  where
    left : List Iovec
    left = take_sent (suc k) ps

    w' : List ℕ
    w' = w ++ take (suc k) (addresses ps)

    some_left : AllSome left
    some_left = take_sent-AllSome (suc k) ps s

    whole : w' ++ addresses left ≡ w ++ addresses ps
    whole =
        append_assoc w (take (suc k) (addresses ps)) (addresses left)
        ∙ ap (λ t. w ++ t)
            (ap (λ t. take (suc k) (addresses ps) ++ t) (addresses-take_sent (suc k) ps)
              ∙ take-append-drop (suc k) (addresses ps))

-- A failed `writev` returns -1, which is the largest `size_t`: every pending part goes.
write_loop_refused :
    (ks : List ℕ) (e : ℕ) (answers : List Answer) (ps : List Iovec) (w : List ℕ) (c : TcpConnection)
    → AllSome ps
    → total ks < length (addresses ps)
    → length (addresses ps) < size_mod
    → write_loop (takes ks (refused e ∷ answers)) (with_parts ps w c)
      ≡ ok (drained (with_parts [] (w ++ take (total ks) (addresses ps)) c))
write_loop_refused [] e answers ps w c s l h =
    round (refused e) answers ps w c refl
    ∙ after_writev_none (write_loop answers) (take_sent (size_mod - 1) ps) (w ++ []) c
        (take_sent_all (size_mod - 1) ps s (omega arith))
write_loop_refused (k ∷ ks) e answers ps w c s l h =
    round (took (suc k) 0) (takes ks (refused e ∷ answers)) ps w c (lt→ltb 0 (suc k) (omega arith))
    ∙ after_writev_some (write_loop (takes ks (refused e ∷ answers))) left w' c
        (omega (arith, size))
    ∙ write_loop_refused ks e answers left w' c (take_sent-AllSome (suc k) ps s)
        (omega (arith, size)) (omega (arith, size))
    ∙ ap (λ u. ok (drained (with_parts [] u c))) whole
  where
    left : List Iovec
    left = take_sent (suc k) ps

    w' : List ℕ
    w' = w ++ take (suc k) (addresses ps)

    size : length (addresses left) ≡ length (addresses ps) - suc k
    size = ap length (addresses-take_sent (suc k) ps) ∙ length-drop (suc k) (addresses ps)

    whole : w' ++ take (total ks) (addresses left) ≡ w ++ take (suc k + total ks) (addresses ps)
    whole =
        append_assoc w (take (suc k) (addresses ps)) (take (total ks) (addresses left))
        ∙ ap (λ t. w ++ t)
            (ap (λ t. take (suc k) (addresses ps) ++ take (total ks) t)
                (addresses-take_sent (suc k) ps)
              ∙ sym (take_add (suc k) (total ks) (addresses ps)))

abbrev pub IsTimed : TcpConnection → Type 0
IsTimed c = IsTimer c.timeout_entry c.wheel

pub extend_life_lem :
    (c : TcpConnection)
    → IsTimed c
    → (w : TimingWheel) × (extend_life c ≡ ok (record c { wheel = w }))
unfolding extend_life
extend_life_lem c t =
    let (w, extended, _) = extend-IsTimer c.max_idle_ms c.timeout_entry c.wheel t in
    (w, rw (extended, ◌>>=◌))

-- A connection with an idle timer of a delay that the wheels take.
pub enable_check_idle_time_lem :
    (timeout : ℕ) (c : TcpConnection)
    → IsValid c.wheel
    → IsStorable timeout
    → (w : TimingWheel) × (enable_check_idle_time timeout c
        ≡ ok (record c {
          max_idle_ms = timeout;
          timeout_entry = some (make_entry (once 0) c.wheel);
          wheel = w;
        }))
      × IsValid w
unfolding enable_check_idle_time
enable_check_idle_time_lem timeout c v storable =
    let (w, inserted, later, stored) = insert_made timeout (once 0) v tt in
    (w, rw (inserted, stored storable, ◌>>=◌) refl, later.valid)

module _ (c : TcpConnection) (t : IsTimed c) (open_now : c.closed ≡ false)
    (s : AllSome c.io_vec_list) where
  on_write-loop :
      (answers : List Answer)
      → 0 < length (addresses c.io_vec_list)
      → (w : TimingWheel) × (on_write answers c ≡ write_loop answers (record c { wheel = w }))
  unfolding on_write
  on_write-loop answers l =
      let (w, extended) = extend_life_lem c t in
      (
        w,
        ap (λ b. if b then ok c else (extend_life c >>= after_writev (write_loop answers))) open_now
            ∙ ap (λ r. r >>= after_writev (write_loop answers)) extended
            ∙ after_writev_some (write_loop answers) c.io_vec_list c.wire (record c { wheel = w })
                l,
      )

  -- A writable socket that takes bytes until nothing is pending: the kernel has got the pending bytes in
  -- order, the loop waits no longer for the socket, and the completion callback is called, if there is
  -- one.
  pub on_write-drained :
      (ks : List ℕ)
      → 0 < length (addresses c.io_vec_list)
      → length (addresses c.io_vec_list) ≤ total ks
      → (w : TimingWheel) × (on_write (takes ks []) c
          ≡ ok (
              drained (with_parts [] (c.wire ++ addresses c.io_vec_list) (record c { wheel = w }))))
  on_write-drained ks l h =
      let (w, e) = on_write-loop (takes ks []) l in
      (w, e ∙ write_loop_drains ks [] c.io_vec_list c.wire (record c { wheel = w }) s l h)

  -- A `writev` that fails, with whatever error and be it that the socket would block, behind others that
  -- took bytes and left some: the bytes that are left are dropped, the connection stays as it is, and the
  -- completion callback is called, if there is one.
  pub on_write_refused :
      (ks : List ℕ) (e : ℕ) (answers : List Answer)
      → total ks < length (addresses c.io_vec_list)
      → length (addresses c.io_vec_list) < size_mod
      → (w : TimingWheel) × (on_write (takes ks (refused e ∷ answers)) c
          ≡ ok (
              drained (
                with_parts []
                  (c.wire ++ take (total ks) (addresses c.io_vec_list))
                  (record c { wheel = w }))))
  on_write_refused ks e answers l h =
      let (w, e') = on_write-loop (takes ks (refused e ∷ answers)) (omega arith) in
      (w, e' ∙ write_loop_refused ks e answers c.io_vec_list c.wire (record c { wheel = w }) s l h)
