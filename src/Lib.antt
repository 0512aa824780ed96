-- ===== src/Lib.antt =====
-- A network library: a reactor (net/) over the shared parts of base/. Paths are from the repository's
-- root. A thread runs an `EventLoop`, which waits in its `Epoller` for the descriptors of its `Channel`s,
-- calls the handlers of those that are active, and then runs the functors that other threads handed to it.
-- A `TcpConnection` sends and receives through a channel and two `Buffer`s; an `EventLoopThreadPool` spreads
-- connections over loops. Log lines are made in a `LogStream` and written by the thread of
-- `AsyncLogging`. `ThreadPool`, `BlockingQueue` and `CountDown` are queues and a barrier between threads.
--
-- Base: lists, 32-bit and 64-bit patterns, memory with faults, integers.
-- Buffer: net/Buffer.h and net/Buffer.cpp. Bytes are a list of numbers, the two indices patterns of an int;
-- an access outside the vector is `none`. `readFromFd` is in Buffer/Socket, with `readv` an argument.
-- LogStream: base/LogStream.h and base/LogStream.cpp. `convert` runs on fuel 20 and `convertHex` on
-- fuel 16, which are as many digits as a 64-bit number has at most.
-- Channel: net/Channel.h and net/Channel.cpp; Poller: net/Epoller.cpp. The kernel's table is the
-- interface `Epoll`, with what epoll_ctl(2) documents, and `Closing` what epoll(7) says of a descriptor that is
-- closed; Poller/Kernel is an instance.
-- TcpConnection: net/TcpConnection.h and net/TcpConnection.cpp, over the models of the buffer, the channel and
-- the poller. What callbacks were called is recorded; `write` is an argument. TcpConnection/Link joins
-- two connections by a stream of bytes.
-- Logging: base/Logging.cpp and base/Logging.h, a statement with a log macro, over the model of the
-- stream. The text of the time, the output function and the flush are arguments. Logging/Settings has the
-- globals that a statement reads, and Logging/Time the text of the time, with the moment and the
-- conversions of `snprintf` as arguments.
-- AsyncLogging: base/AsyncLogging.cpp, over the model of the fixed buffer. The thread's round is two
-- steps, the part under the lock and the rest; AsyncLogging/Service adds start, the loop's test and the
-- destructor.
-- EventLoop: net/EventLoop.cpp, as a step relation, with the steps of other threads between its own.
-- EventLoop/Active is a round of its loop, from the poll to the handlers, and EventLoop/Life the
-- constructor and the destructor.
-- EventLoopThreadPool: net/EventLoopThreadPool.cpp; ThreadPool: base/ThreadPool.cpp; BlockingQueue:
-- base/BlockingQueue.h; CountDown: base/CountDown.h. What a thread does under a lock is one step.
-- ThreadPool/Workers has the threads of a pool and the callers of `run`, counted by where they stand, and
-- ThreadPool/Threads the life of the threads, over the model of a thread.
-- Mutex: base/Mutex.h, with pthread an interface; Monitor: methods under a `MutexLockGuard` with a wait of
-- base/Condition.h at their beginning, one call of the lock or the condition at a time; BlockingQueue/Guarded
-- uses it. The other files take what stands under a lock as one step.
-- Thread: base/Thread.cpp and base/Thread.h, with pthread an interface. StackTrace: `stackTrace` of
-- base/CurrentThread.cpp, with the symbols and the demangler as arguments. CurrentThread: the rest of
-- base/CurrentThread.h, and base/Exception.h.
-- TcpServer: net/TcpServer.cpp and net/Acceptor.cpp, with the model of the pool of loops. A connection is
-- told by its descriptor, loop and callbacks; TcpServer/World has the connections themselves,
-- with what they send and receive, the pollers of their loops and the kernel, and TcpServer/Start the
-- constructor and `start`.
-- Acceptor: the rest of net/Acceptor.cpp, over the models of the socket, the channel and the poller.
-- EventLoopThread: net/EventLoopThread.cpp, the hand-over of the loop and the destructor. Condition: the time of
-- `wait(double)` in base/Condition.h.
-- InetAddress: net/INetAddress.cpp, with inet_pton, inet_ntop and the byte order of the network as an
-- interface. Sockets: net/Sockets.cpp, what follows from the outcome of each system call;
-- Sockets/TcpInfo is the text of `getTcpInfo`.
--
-- Not modelled: functions that only pass a call on (`connect`, `read`, `readv` and `write` of
-- net/Sockets.cpp); what the default connection callback of the server logs; what
-- the tasks of a pool do, and a task that throws; opening the log file.
pub mod Base
pub mod Buffer
pub mod LogStream
pub mod Channel
pub mod Poller
pub mod TcpConnection
pub mod AsyncLogging
pub mod EventLoop
pub mod EventLoopThreadPool
pub mod ThreadPool
pub mod BlockingQueue
pub mod CountDown
pub mod EventLoopThread
pub mod TcpServer
pub mod Condition
pub mod Logging
pub mod Thread
pub mod StackTrace
pub mod InetAddress
pub mod Sockets
pub mod Mutex
pub mod Monitor
pub mod Acceptor
pub mod CurrentThread
