-- ===== src/Udp/Tests.antt =====
-- Tests of the model of a datagram socket: its theorems at short lists.
use turbo_multimedia_server.Common.{
  ℕ, Bool, ◌≡◌, true, false, List, [], ◌∷◌, ◌++◌, replicate, none, some, ok, arith,
}
use turbo_multimedia_server.Address.{InetAddress}
use turbo_multimedia_server.Address.Sockets.{SockAddr, no_address}
use turbo_multimedia_server.Buffer.{MsgBuffer}
use turbo_multimedia_server.Timing.Idle.{still_wheel, still_wheel-IsValid}
use turbo_multimedia_server.Tcp.{refused, took}
use turbo_multimedia_server.Udp.{UdpBufferNode, UdpSocket}
use turbo_multimedia_server.Udp.Writes.{IsTimed, with_nodes}
use turbo_multimedia_server.Udp.Order.{
  Operation, sends, writable, perform_all, stream, perform_all-stream,
}
use turbo_multimedia_server.Udp.Reads.{empty_buffer}
use turbo_multimedia_server.Loop.Hops.{hand_over_all, flush}
use turbo_multimedia_server.Udp.Hops.{Task, do_task, flush-stream}

abbrev place : SockAddr
place = record { family = 2; port = 53; address = []; rest = [] }

abbrev node : ℕ → UdpBufferNode
node n = record { buf = 100; len = n; addr = place }

abbrev echo : InetAddress → MsgBuffer → MsgBuffer
echo a b = b

abbrev storage : List ℕ
storage = replicate 65543 0

abbrev idle : UdpSocket
idle = record {
  closed = false;
  fd_open = true;
  buffer_list = [];
  writing = false;
  max_idle_time = 30;
  message_buffer = empty_buffer storage;
  timeout_entry = none;
  message_cb = some echo;
  has_write_complete_cb = true;
  has_close_cb = true;
  wheel = still_wheel;
  called = [];
  heard = [];
  wire = [];
}

abbrev busy : UdpSocket
busy = with_nodes (node 3 ∷ node 4 ∷ []) [] idle

idle-IsTimed : IsTimed idle
idle-IsTimed = record { valid = still_wheel-IsValid; known = λ e h. cc }

-- A send that would block, another one behind it, and a socket that then takes both.
abbrev story : List Operation
story = sends (refused 11) (node 3) ∷ sends (took 4 0) (node 4) ∷ writable (3 ∷ 4 ∷ []) 11 ∷ []

perform_all-stream_example :
    (s' : UdpSocket) × (perform_all story idle ≡ ok s')
    × (stream s' ≡ stream idle ++ (node 3 ∷ node 4 ∷ []))
perform_all-stream_example =
    perform_all-stream story idle idle-IsTimed
      (tt, (omega arith, ((omega arith, (omega arith, tt)), tt)))

abbrev unnamed : SockAddr → InetAddress
unnamed s = no_address

-- Another thread sends two datagrams, and the loop's thread one behind the first.
abbrev calls : List (Bool × Task)
calls =
    (false, Task.sends (refused 11) (node 3))
    ∷ (true, Task.sends (took 4 0) (node 4))
    ∷ (false, Task.sends (took 5 0) (node 5))
    ∷ []

flush-stream_example :
    stream
      (flush do_task (hand_over_all do_task calls (record { object = idle; waiting = [] }))).object
    ≡ stream idle ++ (node 4 ∷ node 3 ∷ node 5 ∷ [])
flush-stream_example =
    flush-stream calls idle idle-IsTimed (omega arith, tt) (tt, (omega arith, tt))
