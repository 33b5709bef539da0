-- ===== src/Lib.antt =====
-- A TCP library over asio: byte buffers, connections, event loops and their threads, and servers.
--
-- The parts and the files that model them:
--
-- * ByteBuffer models src/bytebuffer.h: a storage with a read and a write position, kept as numbers
--   below 2 ^ 64. Valid has the invariant of the positions, Bytes the readable bytes after each
--   operation, Queue the queue of bytes that clients use a buffer as.
-- * TcpConn models src/tcp_conn.h and src/tcp_conn.cc: a connection with a receive buffer and two
--   send buffers. Types has its state, Handlers the methods and the completion handlers that ask the
--   socket or call the application. Stream and Events follow the bytes that are sent through any
--   history of a connection, and Events.Drain through the writes that complete after it; Closing is
--   about the status, the socket and the callbacks at its end, Traffic about what the application is
--   shown of the bytes that come in, and what goes out. Posting has a connection with its event loop,
--   while other threads call Send.
-- * Link models two connections and the network between them: a wire that keeps the order, in one
--   direction, and in Link.Duplex one in each direction.
-- * Echo models the callbacks of examples/tcp_echo/client/client.cc and
--   examples/tcp_echo/server/server.cc, which are applications of a connection. Echo.Dialogue has the
--   server and a client on two connections.
-- * Serialize models src/serialize.h, with the archives of cereal as a parameter. Messages models
--   src/tcp_client_impl.h and src/tcp_server_impl.h: packets over a connection. Messages.Lifetime is
--   about the end of these objects.
-- * Packets models the packets of examples/tcp_cereal_packet (packet/Packet.h,
--   packet/PacketCommon.h, packet/PacketType.h), SimpleServer its server (server/simple_server.cc)
--   and SimpleClient its client (client/simple_client.cc), with asio's timer as a parameter.
-- * Programs models the main functions of both examples.
-- * EventLoop models src/event_loop.h and src/event_loop.cc: the tasks that other threads hand to a
--   loop, and how it is stopped. Calls has histories of such calls, Steps and Order what runs when.
-- * EventLoopThread models src/event_loop_thread.h and src/event_loop_thread.cc: the thread that runs
--   a loop, and the thread that starts and stops it and polls its status.
-- * EventLoopThreadPool models src/event_loop_thread_pool.h and src/event_loop_thread_pool.cc: the
--   threads of a server, which take turns.
-- * TcpServer models src/tcp_server.h and src/tcp_server.cc: a server accepts in the turns of its
--   pool, names the connections and keeps them in a table until their close callbacks remove them.
--   Control has its start, stop and destructor, which run the pool. Hosting has a server together with
--   the connections that it accepted and the removals that their close callbacks handed to its loop.
--   Accepting answers the accepts of a server one after the other, by sockets and errors, and Ending
--   follows a server without threads to its destructor. Members has the connections of the table as a
--   quotient, which forgets their order.
-- * TcpClient models src/tcp_client.h and src/tcp_client.cc: a client connects, holds its connection
--   until the close callback removes it, and tries again when an attempt is refused. Life has a client
--   with the attempts, the timers and the connections that are out.
-- * Prelude has what the parts share: words of 64 bits, lists, results with the faults of C++
--   (a failed assertion, an empty std::function, an index out of range, a null pointer, a wrong cast,
--   an exception of asio or of an archive, memory that cannot be had), and std::to_string. Tests has the theorems at concrete inputs.
--
-- An Interface under EventLoop, EventLoopThread, EventLoopThreadPool, TcpConn, TcpServer and TcpClient
-- is a record of the public methods of that class and the laws that its users rely on, and the
-- implementation fills it. The stop of a server and the disconnection of a client take their loop as
-- such a record. Messages.PacketHandlers has the virtual functions of the templates, which SimpleServer
-- and SimpleClient fill.
--
-- A function of the source is a function of the same name in snake_case, from the old state to the
-- new one. What an object does to the world is a list of actions in its state, newest first, so
-- that theorems can speak of what was called and in which order.
--
-- asio, cereal, log4z, the application and the scheduler are parameters. A Socket says whether a socket
-- is open after the calls made on it: closing closes it, and no other call opens it. What a connected
-- or accepted socket tells of its two ends is an argument, for asio throws if it cannot tell them, and
-- the constructor of a connection with it. An IoService says of services whether they have stopped. Callbacks are functions on a connection; what a theorem asks of them is
-- among its hypotheses. asio's completions are events: a read with the bytes that the socket put in the
-- buffer, at most those that there was room for, a write with their number, at most those offered. The
-- order in which std::unordered_map is iterated is a parameter, too.
--
-- No definition recurses on fuel that the code does not have. A loop that polls another thread takes
-- the number of steps which that thread makes before each poll, and reports, when these numbers are
-- used up, whether it still polls.
--
-- Not modelled: data races, the order in which the tasks of different loops run, the address that an
-- acceptor or a socket has, and the log library that the example carries a copy of.
pub mod Prelude
pub mod ByteBuffer
pub mod TcpConn
pub mod Echo
pub mod Link
pub mod Serialize
pub mod Messages
pub mod EventLoop
pub mod EventLoopThread
pub mod EventLoopThreadPool
pub mod Packets
pub mod SimpleServer
pub mod SimpleClient
pub mod Programs
pub mod TcpClient
pub mod TcpServer
pub mod Tests
