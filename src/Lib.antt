-- ===== src/Lib.antt =====
-- LpNet: a network library for C++ with its own buffers, caches, queues and allocator.
--
-- A connection keeps a `BufferReader` and a `BufferWriter`, both made of `Buffer`, a ring of bytes;
-- the codecs read and write integers in such bytes; `LRUReplacer` decides what a `BufferPool` gives up;
-- `RingBuffer` and `SafeQueue` carry elements between threads; `Arena` hands out memory from blocks.
--
-- Which file models which part (paths from the repository's root):
--   Prelude     lists and options over the native numbers, Boolean tests, `size_t` arithmetic modulo
--               2 ^ 64, bit operations, and memory: a load or store out of range is `none`, a fault.
--   Buffer      src/util/buffer/Buffer.h, Buffer.cpp. `Buffer.read` is `Buffer::read(char*, size_t)`,
--               `write`, `reset`, `find` and the observers likewise; `index_of` is `indexOf`. The
--               children hold the invariant (Inv), the ring as a window of its array (Window), the
--               FIFO that is its specification (Fifo, Refine, Run), `find` (Search, Find), `reset`
--               (Reset, Tight) and the two calls with a socket (Socket, Socket/Transfer).
--   BufferReader  src/util/buffer/BufferReader.h, BufferReader.cpp: the methods of the class, over Buffer:
--               growing and appending (Growth), the calls that consume bytes (Skipping), and `read_fd`,
--               which is `read(sockfd_t)` (Receiving).
--   BufferWriter  src/util/buffer/BufferWriter.h, BufferWriter.cpp: a queue of buffers, each with one
--               message (Frames), and clients that append and send several (Delivery). `send` also
--               gives what the socket answered, which the code drops.
--   Channel     src/net/Channel.h: `enable_reading` and the other setters of interest bits, their tests
--               (Interest), and `handle_with`, which is `handleEvent(int)` (Dispatch).
--   Codec       the free functions of src/util/buffer/BufferReader.cpp and BufferWriter.cpp: `char` is
--               signed, so a byte that is or-ed into a wider number is sign-extended.
--   Lru         src/util/buffer/Replacer.h, Replacer.cpp: `access`, `evite`, `remove`, `size`.
--   RingBuffer  src/util/buffer/RingBuffer.h: both versions of `push`, `pop`, the observers. The mutex
--               is a flag: locking it where it is held never returns (`none`).
--   Text        texts as lists of bytes, and what the code uses of `std::string`.
--   Strings     src/string_utils.h: splitting (Split), prefix, suffix and search (Ends), URL parameters (Url).
--   Logger      src/util/logger/Logger.h, Logger.cpp: levels, events (Levels); Logger/Format the language of
--               patterns, with its one-pass reading (Pattern) and writing (RoundTrip); Logger/Appender the
--               console (Console) and file appenders (Files); Logger/Registry the loggers, their manager and
--               the configuration (Lookup, Delivery). Shared objects stand in stores, a pointer is an index.
--   Select      src/net/SelectManager.h, SelectManager.cpp: the channel table, and `handle_event`, whose sets
--               are made by `prepare` (Round) and whose events go to `Channel.handle_with`.
--   ThreadPool  src/util/ThreadPool.h: the threads, the queue and the owner as a step relation (Delivery, Stop).
--   TcpConnection  src/net/tcp/TcpConnection.h, TcpConnection.cpp: events and calls of a connection over its
--               reader, writer and channel (Idle, Closing, Sending); a connection runs only if a derived class sets `running_`. What it asks of its
--               scheduler and of the callbacks of its end is a list of requests.
--   TcpServer   src/net/tcp/TcpServer.h, TcpServer.cpp: the table of connections and the scheduler's events
--               as steps of the server (Quiet, Stop).
--   TcpClient   src/net/tcp/TcpClient.h, TcpClient.cpp: starting and stopping a client.
--   SocketApi   src/net/socket_util.h: opening, binding and accepting over a log of system calls.
--   Connector   src/net/Connector.h, Connector.cpp: connecting with retries (Retries, Outcome).
--   Epoll       src/net/EpollManager.h, EpollManager.cpp, as built for Linux (Removal, Descriptors).
--   Fiber       src/util/fiber/Fiber.h, Fiber.cpp (Stack); Fiber/Scheduler is FiberScheduler.h and
--               FiberScheduler.cpp there (Stuck, Idle).
--   Timer       src/util/Timer.h, Timer.cpp: Timer/Heap is `TimerTaskHeap` (Order, Rise, Removal), Timer/Table
--               `TimerTaskMap` (Order), Timer/Worker the class `Timer` over either (Calls).
--   SafeQueue   src/util/SafeQueue.h: `push`, both versions of `pop`, the observers.
--   Arena       src/util/mm/Arena.h, Arena.cpp: pointers are addresses, and what `new char[n]` returns
--               is an argument of the call.
--
-- A method that holds its mutex from beginning to end is one step. The loops run for as many rounds as
-- their counters say, and are recursion on the rounds that are left: no fuel is chosen, but for `split` and
-- `find_case`, which do not end on every input, and `Logger.Registry.log`, which follows the root of a
-- logger: its fuel is the number of loggers on the way. The loops of the timer heap have one round more
-- than the heap has tasks, which is enough. A size is below 2 ^ 62 where an invariant says so,
-- so that no `size_t` addition wraps; the definitions keep the wrap-around.
--
-- Parameters, for code outside the repository: `socket_api::recv` and `socket_api::send` are functions from
-- what they are given to their answer; `strftime` and `decimal` are what the standard library prints of a
-- time and a number; a `Disk` says what a file appender finds outside; `select` is a
-- function from the sets that it is given to its answer, and `epoll_ctl`, `epoll_wait` and `connect` are
-- likewise.
--
-- Not modelled: the event loop and the task scheduler, the acceptor; Clock, Library, Socket and the other wrappers of system calls; the database and configuration
-- wrappers; `peek`, which hands out a pointer; `toYamlString` and the reading of configuration files, which
-- are calls of a YAML library; destructors.
pub mod Prelude
pub mod Buffer
pub mod Channel
pub mod BufferReader
pub mod BufferWriter
pub mod Codec
pub mod Logger
pub mod Lru
pub mod RingBuffer
pub mod SafeQueue
pub mod Select
pub mod Epoll
pub mod Connector
pub mod Fiber
pub mod Strings
pub mod TcpConnection
pub mod TcpServer
pub mod SocketApi
pub mod TcpClient
pub mod Text
pub mod ThreadPool
pub mod Timer
pub mod Arena
