-- ===== src/Lib.antt =====
-- Programs for network communication in C and C++: messages over stream sockets with a server
-- and a client, a pool of threads, servers that echo, over poll, select and epoll too, and
-- programs in which threads share a list, a number or connections to a database.
--
-- The parts, and the files that model them:
-- - Net: the system calls for sockets, a parameter of the development. Net/Stream says what the
--   programs rely on: bytes arrive whole, in order and once. Net/Pipe and Net/Pipes are
--   instances on which the programs run, with one connection and with several.
-- - Wire, Socket: SocketPackage/socket.c. readn, writen, recvMsg, sendMsg and the wrapped calls
--   keep their names in snake case. A message is its length in four bytes, the most significant
--   first, and then its bytes. Socket/Receive, Send, Message, Frame, Failure, Parse and Setup hold
--   the theorems.
-- - MessageServer: SocketPackage/server.c (the table infos, the accept loop, the thread working)
--   and SocketPackage/client.c.
-- - ThreadPool: Thread/ThreadPool/threadPool.c, which socket/multi_thread/threadPool.c repeats.
--   The root has the pool's fields and what each stretch of code under a lock does;
--   ThreadPool/System has the threads and their steps. ThreadPool/Queue relates the circular
--   buffer to a list, ThreadPool/Slots is about threadIDs, ThreadPool/Invariant holds in every
--   reachable state and ThreadPool/Safety draws the conclusions. ThreadPool/Limits and Kept say what
--   no step changes.
-- - PoolDemo: Thread/ThreadPool/main.c with the steps of ThreadPool/System, and PoolDemo/Once on its
--   hundred tasks.
-- - CppPool: Thread/ThreadPool/threadPoolC++, the pool in C++ over a queue without a bound; its
--   loops over threadIDs are those of ThreadPool. CppPool/Invariant holds in every reachable
--   state, its children Steps and Others show that each step keeps it, and CppPool/Safety draws
--   the conclusions.
-- - CppDemo: Thread/ThreadPool/threadPoolC++/test.cpp with the steps of CppPool, and CppDemo/Once on
--   its hundred tasks.
-- - Echo: socket/server.c, and socket/multi_thread/server.c with its tasks. Echo/Capacity puts the
--   tasks into the pool.
-- - PollServer: IO_mulit_way/poll_server.c, over poll, read and write as parameters.
-- - SelectServer: IO_mulit_way/select_server.c, over select as a parameter. SelectServer/Reply
--   is about the buffer of a message, SelectServer/Watched about the descriptor set.
-- - EpollServer: IO_mulit_way/epoll_server.c, over the calls of Net/Events, which are epoll and
--   recv on a socket that does not block. EpollServer/Drain is about the loop over a client,
--   EpollServer/Apart about the connections of others, and EpollServer/Round about the loop over
--   the events.
-- - ThreadEpoll: IO_mulit_way/thread_epoll_server.c, whose main starts as that of
--   epoll_server.c. ThreadEpoll/Chunk, Talk and Overflow are about the thread that talks to a
--   client. ThreadEpoll/System has the threads step by step. System/Calls says what a thread has
--   received and sent, System/Kept, Moves and Pieces how that goes together in every reachable state, and
--   System/Crossed is a run.
-- - ThreadServer: IO_mulit_way/thread_server.c, the steps of main and its threads; the start of
--   main is that of select_server.c. ThreadServer/Listening holds in every reachable state.
-- - Clients: socket/client.c, of which socket/multi_thread/client.c is a copy, and select_client.c,
--   poll_client.c, epoll_client.c and thread_client.c of IO_mulit_way. Clients/Greets is about
--   socket/client.c alone. Clients/Chat puts it together with socket/server.c, step by step:
--   Clients/Chat/Order holds in every reachable state, Clients/Chat/Gaps is about the '\0's in
--   the stream, and Clients/Chat/Prompt is about calls of recv that take everything.
--   Clients/Lines is about the other clients and their servers, Clients/Texts about what is sent.
-- - CText: strlen, toupper, fgets, and what printf does, on the buffers of these programs.
-- - Semaphore: Thread/semaphore.c. Semaphore/Invariant holds in every reachable state, its child
--   Steps shows that each step keeps it, and Semaphore/Safety draws the conclusions.
-- - Condition: Thread/pthread_cond.c. Condition/Invariant holds in every reachable state, its
--   child Steps shows that each step keeps it, and Condition/Safety draws the conclusions.
-- - ThreadBasics: Thread/pthread.c, and ThreadBasics/Lifetime on the variable that it shares.
-- - Counter: Thread/counter.c. Counter/Total holds in every reachable state, Counter/Total/Runs
--   is about its runs.
-- - RwLock: Thread/read_write_lock.c, with RwLock/Total and RwLock/Total/Runs likewise.
-- - ConnectionPool: ConnectionPool/ConnectionPool.cpp. ConnectionPool/Account says where each
--   connection is, ConnectionPool/Aged, Recycle and Order are about their idle times and the
--   recycler, and ConnectionPool/Size about how many there are and the producer.
--   ConnectionPool/Cases has what an operation has done where it returns.
-- - MysqlConn: ConnectionPool/MysqlConn.cpp, over the MySQL library as a parameter.
--   MysqlConn/Calls and Results are about result sets, MysqlConn/Value about the strings of a
--   row.
-- - DatabaseDemo: ConnectionPool/main.cpp. DatabaseDemo/Inserts and Rows are about op1 and query,
--   the statements that the library is given and what is printed. DatabaseDemo/Callers has the
--   threads of test2 on the pool, and Callers/Once is about their end.
-- - Run: what becomes of a call: it returns, it needs more rounds than it is given, or it does
--   something that C gives no meaning to (an access outside an object, an overflow of an int).
-- - Prelude: lists, integers, tests on numbers, and counting over lists of threads.
--
-- Loops and fuel: readn is given one round more than the bytes asked for, and each round stores
-- a byte or ends. writen may repeat a round for ever when send takes no byte, so the number of
-- rounds is an argument; where send makes progress, one more than the bytes is enough. The
-- thread working goes on as long as its peer does, so its rounds are an argument too; one more
-- than the messages is enough. So it is with the loops that echo: one more than the bytes is
-- enough. The outer loops of the servers never end; their theorems are about any number of
-- rounds.
--
-- Threads: in ThreadPool a stretch of code between taking a lock and giving it up is one step,
-- and so is each access without the lock; Semaphore, Condition, Counter and RwLock have a step
-- for each access of a shared variable, and the lock is part of the state. Steps of different
-- threads follow each other in any order. In ConnectionPool what a thread does with the mutex
-- held, between two waits, is one step, and time passes in steps and within them. A wait on a
-- condition variable may end at any time, which POSIX allows, so in ThreadPool and CppPool
-- signals are not steps; in Condition the broadcast is one. An int that counts is a natural
-- number, whose subtraction stops at 0.
--
-- Not modelled: output, sleeping, the failure of malloc except where threadPoolCreate looks for it,
-- which it does not for taskQ, the contents of addresses that are only printed, what a database does
-- with a statement that update is given, and the tests under ConnectionPool/test.
-- socket/multi_thread/threadPool.c has the text of Thread/ThreadPool/threadPool.c and has no model
-- of its own.
pub mod Prelude
pub mod Net
pub mod Wire
pub mod Run
pub mod Socket
pub mod PoolDemo
pub mod ThreadPool
pub mod ThreadServer
pub mod MessageServer
pub mod MysqlConn
pub mod Semaphore
pub mod CppPool
pub mod CppDemo
pub mod Echo
pub mod Counter
pub mod RwLock
pub mod CText
pub mod ConnectionPool
pub mod ThreadEpoll
pub mod EpollServer
pub mod SelectServer
pub mod Condition
pub mod PollServer
pub mod Clients
pub mod DatabaseDemo
pub mod ThreadBasics
