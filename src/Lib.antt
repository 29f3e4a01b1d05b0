-- ===== src/Lib.antt =====
-- A model of TurboMultimediaServer's network and RTMP code, and the theorems that it satisfies.
--
-- The server reads bytes from a connection into a buffer, hands the buffer to a protocol, here the
-- RTMP handshake, and sends the protocol's packets back. A timing wheel runs what is due later: idle
-- timeouts and repeated calls. A server accepts connections and a client opens one, each on a loop;
-- datagrams, the addresses of hosts and the log files have parts of their own.
--
-- Parts and files:
--   * network/base/MsgBuffer.h, MsgBuffer.cpp: Buffer.antt and the files below it. The vector of bytes
--     is a list of numbers; the two indices are 64-bit sizes, added and subtracted with their
--     wrap-around. A method that changes the buffer gives the new buffer. A failed assert, and an
--     exception of the vector, is a fault of Common/Fault.antt.
--   * network/net/TimingWheel.h, TimingWheel.cpp: Timing.antt and the files below it. Each wheel is a
--     list of slots, a slot a list of the entries it refers to. The destructor of an entry, in which
--     its callback runs, is a step of its own, taken when the last slot lets go of the entry.
--   * mmedia/rtmp/RtmpHandshake.h, RtmpHandshake.cpp: Rtmp.antt has the packets and their digests, and
--     Rtmp/Machine.antt the states; Rtmp/Machine/Exchange.antt puts two sides together. What is sent is
--     part of each operation's result, and so is what `writeComplete` does when a write ends at once.
--   * network/net/TcpConnection.h, TcpConnection.cpp: Tcp.antt and the files below it. What the system
--     calls answer is an argument of each operation, one answer for each round of a loop, and what the
--     message callback does to the connection is a parameter; the list of pending parts, the buffer, the
--     idle timer and the callbacks called are the state.
--   * network/net/Connection.h, Connection.cpp: Connection.antt and the files below it, the contexts and the
--     activation that every connection has.
--   * network/net/EventLoop.h, EventLoop.cpp: Loop.antt and the files below it. A round takes what epoll
--     reports; what a handler or a queued function does to the loop is a parameter, and what is asked of
--     epoll is a list. Loop/Clock.antt is the loop as it goes round, with the times that it reads and the
--     timing wheel. Loop/Handoff.antt, with PipeEvent.cpp, is what the loop and other threads do to the
--     queue of functions, one move after another.
--   * base/StringUtils.h, StringUtils.cpp: Text.antt and the files below it.
--   * network/net/InetAddress.h, InetAddress.cpp and SocketOpt.cpp: Address.antt and the files below it;
--     Address/Sockets.antt has every place where the source reads or fills a `sockaddr`, and
--     Address/Sockets/Opening.antt what a socket asks of the system.
--   * network/TcpServer.h, TcpServer.cpp and net/Acceptor.cpp: Server.antt and the files below it. The
--     server puts the loop of Loop.antt and the connections of Tcp.antt together: what a handler asks
--     of the loop for its socket is done there, and what it leaves of a connection goes back into the set,
--     or the connection calls the server back and is gone.
--   * network/TcpClient.h, TcpClient.cpp: Client.antt, over a connection of Tcp.antt.
--   * network/UdpSocket.h, UdpSocket.cpp: Udp.antt and the files below it, with answers for the system
--     calls as for a connection. The idle timer of both is Timing/Idle.antt. UdpServer.cpp and
--     UdpClient.cpp are Udp/Ends.antt, where the socket has the loop that watches it.
--   * network/DnsService.h, DndService.cpp: Dns.antt has the operations and a round of the worker,
--     Dns/Steps.antt what the worker and its clients do one after another.
--   * network/net/EventLoopThread.cpp, EventLoopThreadPool.cpp: Threads.antt. A thread that starts is a
--     relation between its steps and those of its caller; one that is stopped is Threads/Stopping.antt, as
--     moves that take turns.
--   * base/FileLog.cpp, FileLogMgr.cpp: Logs.antt. What is asked of the file system is a list.
--     LogStream.cpp, Logger.cpp and TTime.cpp are Logs/Stream.antt.
--   * mmedia/base/Packet.h, Packet.cpp: Media.antt.
--   * Common.antt and the files below it: names, lists, sizes and faults that all parts use.
--
-- Paths are those below the repository's src directory.
--
-- Fuel: `insertEntry` calls itself with the rest of a delay, at most three times, so that its fuel of 4
-- is enough for every delay. `runEvery` calls itself when its entry is destroyed as the call ends; its
-- fuel is an argument, and 1 is enough for the intervals that the wheels take. The loops of `onWrite` and
-- `onRead` end by the list of answers, and running out of answers is the fault `unfinished`. The loop of
-- `split` has fuel; one more than the text has bytes is enough. A signed `int` delay is a natural number
-- here: a negative one takes the branch of 0.
--
-- Bounds: bytes are numbers, and a theorem that needs a byte or an integer to be in range says so. A
-- buffer is no longer than the largest size of a vector of bytes, 2^63 - 1.
--
-- Not modelled: HMAC-SHA256, the system calls and epoll, the random numbers, the resolver, the file
-- system and the clock are parameters. Left out are the hop of a client's `connect` to the loop's thread,
-- which only queues the operation; and the programs.
pub mod Common
pub mod Buffer
pub mod Timing
pub mod Rtmp
pub mod Tcp
pub mod Loop
pub mod Text
pub mod Address
pub mod Udp
pub mod Server
pub mod Logs
pub mod Threads
pub mod Client
pub mod Connection
pub mod Dns
pub mod Media
