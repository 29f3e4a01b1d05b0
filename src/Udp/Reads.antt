-- ===== src/Udp/Reads.antt =====
-- `UdpSocket::onRead` (network/UdpSocket.cpp): what the message callback hears.
use turbo_multimedia_server.Common.{
  ℕ, ◌+◌, ◌≡◌, ◌≤◌, List, [], ◌∷◌, length, take, splice, ltb, if◌then◌else◌, ok, add_size,
}
use turbo_multimedia_server.Address.{InetAddress}
use turbo_multimedia_server.Address.Sockets.{SockAddr}
use turbo_multimedia_server.Buffer.{
  MsgBuffer, max_size, content, copy_to, has_written, cheap_prepend,
}
use turbo_multimedia_server.Udp.{UdpSocket, Received, failed, datagram, message_buffer_size}

-- A buffer with no byte in it.
abbrev pub empty_buffer : List ℕ → MsgBuffer
empty_buffer storage = record {
  buffer = storage;
  reader_index = cheap_prepend;
  writer_index = cheap_prepend;
}

-- It has room for a datagram.
pub record HasRoom (storage : List ℕ) : Type 0 where
  pub room : cheap_prepend + message_buffer_size ≤ length storage
  pub small : length storage ≤ max_size

abbrev pub with_buffer : List ℕ → List (InetAddress × List ℕ) → UdpSocket → UdpSocket
with_buffer storage heard s = record s { message_buffer = empty_buffer storage; heard = heard }

-- Datagrams, and an error behind them.
abbrev pub arrive : List (SockAddr × List ℕ) → ℕ → List Received
arrive [] e = failed e ∷ []
arrive ((from, bytes) ∷ ds) e = datagram from bytes ∷ arrive ds e

-- The buffer with a datagram in it.
abbrev full : List ℕ → List ℕ → MsgBuffer
full d storage = record {
  buffer = splice cheap_prepend d storage;
  reader_index = cheap_prepend;
  writer_index = add_size cheap_prepend (length d);
}

record Putting (d storage : List ℕ) : Type 0 where
  kept : HasRoom (splice cheap_prepend d storage)
  copied :
      copy_to cheap_prepend d (empty_buffer storage)
      ≡ ok (empty_buffer (splice cheap_prepend d storage))
  written :
      has_written (length d) (empty_buffer (splice cheap_prepend d storage)) ≡ ok (full d storage)
  holds : content (full d storage) ≡ d

module _ (sender : SockAddr → InetAddress) where
  -- The datagrams that hold a byte, cut to the buffer's size.
  abbrev pub reported : List (SockAddr × List ℕ) → List (InetAddress × List ℕ)
  reported [] = []
  reported ((from, bytes) ∷ ds) =
      let d = take message_buffer_size bytes in
      let rest = reported ds in if ltb 0 (length d) then (sender from, d) ∷ rest else rest
