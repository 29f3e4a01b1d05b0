-- ===== src/Tcp/Tests.antt =====
-- Tests of the model of a connection: its theorems at small buffers.
use turbo_multimedia_server.Common.{
  Bool-cases, inl, inr, ℕ, ◌≤◌, replicate, ◌≡◌, refl, true, false, List, [], ◌∷◌, ◌++◌, none, take,
  ok, arith,
}
use turbo_multimedia_server.Timing.{TimingWheel}
use turbo_multimedia_server.Timing.Idle.{still_wheel, still_wheel-IsValid}
use turbo_multimedia_server.Buffer.{MsgBuffer}
use turbo_multimedia_server.Buffer.Content.{Holds}
use turbo_multimedia_server.Tcp.Hops.{run_task, send_each, flush-send_each}
use turbo_multimedia_server.Loop.Hops.{flush}
use turbo_multimedia_server.Tcp.Reads.{arrivals, settled, on_read-arrivals}
use turbo_multimedia_server.Tcp.{
  on_read, on_close, refused, TcpConnection, addresses, on_write, drained,
}
use turbo_multimedia_server.Tcp.Stream.{Send, send_all, given, stream, send_all-stream}
use turbo_multimedia_server.Tcp.Writes.{
  takes, with_parts, IsTimed, on_write-drained, on_write_refused,
}

-- A connection on which nothing was sent yet.
abbrev idle : TcpConnection
idle = record {
  closed = false;
  fd_open = true;
  io_vec_list = [];
  writing = false;
  message_buffer = record { buffer = []; reader_index = 0; writer_index = 0 };
  has_close_cb = true;
  has_write_complete_cb = true;
  has_message_cb = false;
  timeout_entry = none;
  max_idle_ms = 30;
  wheel = still_wheel;
  called = [];
  wire = [];
}

-- One with five bytes pending in two parts.
abbrev busy : TcpConnection
busy = record idle {
  io_vec_list = record { base = 100; len = 2 } ∷ record { base = 200; len = 3 } ∷ [];
  writing = true;
}

busy-IsTimed : IsTimed busy
busy-IsTimed = record { valid = still_wheel-IsValid; known = λ e h. cc }

abbrev sends : List Send
sends =
    record { buf = 100; len = 3; write_takes = 2 }
    ∷ record { buf = 200; len = 4; write_takes = 0 }
    ∷ []

send_all-stream_example :
    ((send_all sends idle).closed ≡ false)
    × (stream (send_all sends idle) ≡ stream idle ++ given sends)
send_all-stream_example =
    send_all-stream sends idle (omega arith, omega arith, (omega arith, omega arith, tt)) refl

on_write-drained_example :
    (w : TimingWheel) × (on_write (takes (3 ∷ 0 ∷ []) []) busy
      ≡ ok (
          drained
            (with_parts [] (busy.wire ++ addresses busy.io_vec_list) (record busy { wheel = w }))))
on_write-drained_example =
    on_write-drained busy busy-IsTimed refl (omega arith, (omega arith, tt)) (3 ∷ 0 ∷ [])
      (omega arith) (omega arith)

on_write_refused_example :
    (w : TimingWheel) × (on_write (takes (2 ∷ []) (refused 11 ∷ [])) busy
      ≡ ok (
          drained (
            with_parts []
              (busy.wire ++ take 3 (addresses busy.io_vec_list))
              (record busy { wheel = w }))))
on_write_refused_example =
    on_write_refused busy busy-IsTimed refl (omega arith, (omega arith, tt)) (2 ∷ []) 11 []
      (omega arith) (omega arith)

-- A buffer with nothing in it.
abbrev bare : MsgBuffer
bare = record { buffer = replicate 16 0; reader_index = 8; writer_index = 8 }

bare-Holds : Holds [] bare
bare-Holds = record {
  valid = record {
    reserve = omega arith;
    small = omega arith;
    ordered = omega arith;
    within = omega arith;
  };
  bytes = refl;
}

-- A callback that drops what it is given, queues an answer of two bytes and closes the connection.
abbrev answer : TcpConnection → TcpConnection
answer t = on_close (record t {
  message_buffer = bare;
  io_vec_list = t.io_vec_list ++ (record { base = 4096; len = 2 } ∷ []);
})

abbrev nothing : List ℕ → List ℕ
nothing c = []

-- Nothing was sent before: what the kernel took stays nothing.
abbrev IsUnsent : TcpConnection → Type 0
IsUnsent t = t.wire ≡ []

answer_leaves :
    (t : TcpConnection) (c : List ℕ)
    → Holds c t.message_buffer
    → IsUnsent t
    → Holds (nothing c) (answer t).message_buffer
      × ((answer t).message_buffer.writer_index ≤ 8)
      × ((answer t).has_message_cb ≡ t.has_message_cb)
      × IsUnsent (answer t)
unfolding on_close
answer_leaves t c h k = elim (Bool-cases t.closed) [
  | inl b ↦ rw b (bare-Holds, omega arith, refl, k)
  | inr b ↦ rw b (bare-Holds, omega arith, refl, k)
]

abbrev listening : TcpConnection
listening = record idle { has_message_cb = true; message_buffer = bare }

listening-IsTimed : IsTimed listening
listening-IsTimed = record { valid = still_wheel-IsValid; known = λ e h. cc }

on_read-arrivals_example :
    (t' : TcpConnection) × (on_read answer (arrivals ((1 ∷ 2 ∷ []) ∷ (3 ∷ []) ∷ []) none) listening
      ≡ ok (settled true t'))
    × Holds [] t'.message_buffer
    × IsUnsent t'
on_read-arrivals_example =
    on_read-arrivals answer nothing 8 IsUnsent (λ t b k. k) answer_leaves
      ((1 ∷ 2 ∷ []) ∷ (3 ∷ []) ∷ []) none listening refl bare-Holds.valid (λ w. refl) (omega arith)
      (omega arith) (omega arith, omega arith, (omega arith, omega arith, tt)) listening-IsTimed
      refl

flush-send_each_example :
    let s = send_each sends (record { object = idle; waiting = [] }) in
    (stream s.object ≡ []) × (stream (flush run_task s).object ≡ given sends)
flush-send_each_example =
    flush-send_each sends idle (omega arith, omega arith, (omega arith, omega arith, tt)) refl
