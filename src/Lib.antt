-- ===== src/Lib.antt =====
-- ns-3-dce runs ordinary POSIX programs inside the ns-3 network simulator: each simulated process has
-- its own descriptors, mutexes, semaphores and condition variables, its threads are tasks that run one
-- at a time on a simulated node, and what would block a thread hands the processor back to the
-- simulator. This library models that core, and proves what the rest of the program relies on.
--
-- The parts, and the files of the repository that they model:
--
-- - FifoBuffer: model/fifo-buffer.cc, the byte buffer of a pipe. `write_pass` is one pass of `Write`,
--   which calls itself; `write` gives it three passes, which are enough (compact, grow, store). Sizes
--   are 64-bit words that wrap around. `malloc` is a parameter.
-- - TaskManager: model/task-manager.cc and model/rr-task-scheduler.cc, the tasks of a node. `wakeup`,
--   `start`, `stop`, `quit` (`Sleep`, `Sleep (Time)`, `Yield`, `Exit`), `enter`, `leave` and `on_main`
--   (`Schedule`) and `end_wait` are functions on a `Manager`; `none` is a failed assertion or a use of
--   a deleted task. TaskManager/Machine.antt runs them in any order. Left out: fibers, switch
--   notifiers, `Clone`, `EnterHiTask`, `ExecOnMain` and disposal.
-- - ObjectTable: the loops by which the calls below find, change and remove an object of a process by
--   its id.
-- - Mutex, Semaphore, Condition: model/dce-pthread-mutex.cc, model/dce-semaphore.cc and
--   model/dce-pthread-cond.cc. Each call is a function on the part of `struct Process`
--   (model/process.h) that it uses; a call that blocks is split where it waits, and one that waits on a
--   condition also where it yields after it gave the mutex back. The files called Machine.antt let any
--   threads make calls on one object in any order; Condition/Timeouts.antt puts a timed wait together
--   with `Sleep (Time)` of the task manager.
-- - FileTable: the descriptors of a process: model/file-usage.cc, model/unix-fd.cc, and the calls of
--   model/dce-fd.cc and model/utils.cc that open, close and duplicate descriptors or use a file.
-- - Env: model/dce-env.cc and `seek_env` of model/utils.cc, on the strings of the environment. The loop
--   of `dce_unsetenv` runs on fuel; Env/Unset.antt says how much is enough, and when none is.
-- - KingsleyAlloc: model/kingsley-alloc.cc, the heap of a process that was not cloned. `SizeToBucket` has
--   a round for each of the 32 digits of a size. `mmap` is a parameter.
-- - Paths: model/exec-utils.cc with `Split` and `CheckExeMode` of model/utils.cc. `scan_step` is one
--   character of `CanonizePath`; `split` has a round for each character. The tests of files are
--   parameters. The search with an environment variable is left out.
-- - Threads: model/dce-pthread.cc and the thread tables of model/dce-manager.cc. `pthread_join` and
--   `join_again` are the two halves of a join that waits; Threads/Machine.antt lets any threads make
--   calls while one waits. The searches of ids have as many rounds as their loops. `dce_exit` and
--   `dce_pthread_cancel` are left out.
-- - WaitQueue: the queues of model/unix-fd.cc in which threads wait on a descriptor, with the events of
--   model/wait-queue.cc.
-- - Pipe: model/pipe-fd.cc, over FifoBuffer and WaitQueue. A call that waits is split in two, as above.
--   `close` closes the other end by a call of itself, three deep at most. Pipe/Wakeups.antt lets any
--   threads make calls on one pipe in any order.
-- - Signals: model/dce-signal.cc, `UtilsSendSignal` and `UtilsDoSignal` of model/utils.cc. Handlers are
--   taken not to change the sets of signals while they are delivered; `dce_sigwait`, a stub, is left out.
-- - Children: model/dce-wait.cc with the calls of model/dce-manager.cc on children.
-- - Poll: model/dce-poll.cc. A pass of the loop of `dce_poll` is `poll_pass`; the descriptors are
--   parameters, and the wait between two passes and what `UtilsAdvanceTime` does are left out.
-- - LocalSocket: model/local-socket-fd.cc, the read buffer that the sockets between processes of a node
--   share.
-- - LocalStream: model/local-stream-socket-fd.cc and model/local-socket-fd-factory.cc, stream sockets over
--   LocalSocket and WaitQueue. A node is a map from addresses to sockets with the table of bound names.
--   Calls that wait are split as above; LocalStream/Ends.antt says that the fuel of the loops of `Write`
--   and `Read`, two passes, is enough. LocalStream/Reach.antt runs calls in any order. `bind` of the
--   host, the descriptor that is allocated and the address of a new socket are arguments. The names of
--   sockets and `Getsockopt` are left out.
-- - LocalDatagram: model/local-datagram-socket-fd.cc, the binding, connecting, writing and closing of
--   datagram sockets of a node, over LocalSocket and WaitQueue. Their reads and messages are left out.
-- - Netlink: netlink/netlink-attribute.cc, netlink/netlink-message-route.cc and netlink/netlink-message.cc.
--   What is written is a list of bytes, what is read a function from one. The loop over attributes has a
--   round for each byte that remains, the loop over messages as many as there are messages. The order
--   of bytes of the iterators of ns-3, and its addresses, are the parameter `Wire`.
-- - Prelude: tests, lists, machine words, slices of memory and maps, shared by the other files.
--
-- Threads, tasks, files and pointers are numbers, their addresses; times are natural numbers of
-- nanoseconds. Identifiers of mutexes, semaphores and conditions are 32-bit words. Code of ns-3, of
-- the C library and of the host is not modelled: where a call uses it, its result is an argument.
-- Sockets of ns-3 and of the kernel, the socket that answers netlink messages, and the start and the
-- end of processes are not modelled.
pub mod Children
pub mod Condition
pub mod Env
pub mod FifoBuffer
pub mod FileTable
pub mod KingsleyAlloc
pub mod LocalDatagram
pub mod LocalSocket
pub mod LocalStream
pub mod Mutex
pub mod Netlink
pub mod ObjectTable
pub mod Paths
pub mod Pipe
pub mod Poll
pub mod Prelude
pub mod Semaphore
pub mod Signals
pub mod TaskManager
pub mod Threads
pub mod WaitQueue
