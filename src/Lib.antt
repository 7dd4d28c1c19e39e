-- ===== src/Lib.antt =====
-- Verification of the programs of everyday_coding: the timer libraries ttimer/tdengine_old.c and
-- ttimer/timer.c, the two programs of obtain_container_ip/, getdents64/getdents64_test.c,
-- packet_mmap/packet_mmap.c, networks/reuse_addr_option.c, named_pipe/, unix_client_server/,
-- process/, dup_dup2/, and three C++ exercises.
--
-- tdengine_old.c. A controller (`tmr_ctrl_t`) keeps timers in an array of lists. tmrReset puts a timer
-- into the list in which it runs out, with the number of rounds until then as its cycle; a thread
-- that wakes up at every tick calls timerLoopFunc, which calls tmrProcessList for every controller
-- whose counter of ticks is full; and that runs the callbacks of the timers of one list whose cycle
-- is used up, and takes one from the cycle of the others. The timers are the blocks of a pool
-- (`pool_t`), a ring of indices of free blocks over one allocation.
--
-- timer.c. The unfinished successor: timers with a reference count stand in a hash map by their id,
-- whose buckets have a spin lock each, and in the slots of three time wheels. The map and the wheels
-- hold a reference to each of their timers, and so does a caller of findTimer.
--
-- obtain_container_ip/. Two programs that switch to the network or mount namespace of a container by
-- a descriptor of /proc, ask there for its address or for the index of its interface, and switch
-- back; obtain_container_veth.cpp then looks for the interface of the host with that index.
--
-- getdents64/getdents64_test.c. It lists a directory from the records that the system call getdents64
-- leaves in a buffer. Its loops run on fuel: one round for every byte of a buffer and one more, and
-- one for every call.
--
-- packet_mmap/packet_mmap.c. Four processes, each with a packet socket of one fanout group, read
-- packets, and the process that has forked them waits for them.
--
-- networks/reuse_addr_option.c. Experiments with two sockets that bind the same port.
--
-- named_pipe/. Server.cpp writes at least 10240 bytes to a named pipe in blocks of 1024, and
-- Client.cpp reads from it without waiting.
--
-- unix_client_server/. unixClient.cpp sends a line to unixServer.cpp and prints what comes back.
--
-- dup_dup2/. A program that writes to a file by two descriptors, and by that of its output.
--
-- process/. Two programs that lock a file and fork, so that the child inherits the lock.
--
-- CPlusPlusThings/practical_exercises/. `Array<T>` of array_template.cpp sorts five elements, and
-- `SalaryManage` of bracket_overloading.cpp is a table of salaries with a subscript operator;
-- map_insert_look.cpp keeps strings in a map by the addresses of their keys.
--
-- The files.
--   Base, Base/*           numbers, C integers, lists, conditionals
--   Pool                   pool_t, memPoolInit, memPoolMalloc, memPoolFree, memPoolCleanup
--   Pool/Window            the ring of free blocks as a list
--   Pool/Address           which addresses memPoolFree takes for blocks
--   Pool/Owned, Pool/Setup who holds which block; memPoolInit
--   Ctrl/Memory            tmr_obj_t and the writes to it
--   Ctrl, Ctrl/Ticks       tmr_list_t, tmr_ctrl_t, tmrReset, tmrProcessList; timerLoopFunc
--   Ctrl/Chain, Relink     doubly linked lists in memory, and the pointer writes of tmrReset
--   Ctrl/Order, Placed     the order of a list, and the place of a new timer
--   Ctrl/Invariant         the invariant of a controller
--   Ctrl/Unlink, Armed, Reset   tmrReset
--   Ctrl/Free, Decrement, Waiting, Process, Expiry   tmrProcessList
--   Ctrl/Due, OnTime       when a timer runs out
--   Ctrl/Start             tmrInit
--   Ctrl/Clock             timerLoopFunc
--   Ctrl/Reach             the states that the calls lead to
--   Ctrl/Alarm             tmrModuleInit, processAlarmSignal, and the program as a whole
--   Entry                  timer.c: tmr_obj_t, timerAddRef, timerDecRef, getNextTimerId
--   Map                    timer.c: timer_map_t, addTimer, findTimer, removeTimer
--   Map/*                  timer.c: buckets as lists, and the calls on them
--   Wheel, Wheel/*         timer.c: time_wheel_t, addToWheel, removeFromWheel
--   Timers, Timers/*       timer.c: its calls together, and who holds references
--   Lock                   timer.c: lockTimerList, unlockTimerList
--   CString, CString/Laws  C strings as lists of bytes, fgets, atoi
--   Os, Os/Laws            the descriptors, streams and namespaces of a process; system calls
--   Netns, Netns/*         enter_netns, enter_mntns, restore_netns, restore_mntns
--   Veth, Veth/*           obtain_container_veth.cpp
--   Ip, Ip/*               obtain_container_ip.cpp
--   Getdents, Getdents/*   getdents64_test.c
--   Fanout, Fanout/*       packet_mmap.c
--   Reuse, Reuse/*         reuse_addr_option.c
--   Pipe, Pipe/*           named_pipe/Server.cpp and Client.cpp, interleaved
--   Echo, Echo/*           unixServer.cpp and unixClient.cpp
--   Flock, Flock/*         child_inherit_flock.c, child_share_flock.c, interleaved
--   Dup, Dup/*             dup-dup2-example.cpp
--   Sorting, Sorting/*     array_template.cpp
--   Salary, Salary/*       bracket_overloading.cpp
--   Lookup, Lookup/*       map_insert_look.cpp
--   Os/Samples             concrete kernels
--   */Tests, Ctrl/Samples  concrete pools, lists, controllers and maps
--
-- The model. Functions are named after the source: tmrReset is `tmr_reset`, and so on. An address
-- is a number, NULL is 0, and the memory is a function from addresses to timers. A call is one step
-- from a state to a state, with nothing in between. In tdengine_old.c the calls hold a mutex while
-- they work on a list or a pool, and tmrInit, which holds none, is called on a controller that is
-- not in use; in timer.c addTimer and addToWheel write to the timer before they take a lock, and
-- what is shown there of several calls is of calls one after the other (Wheel/Interrupted has the
-- two parts of addToWheel). In Lock each round of the loop is a step, and in Pipe and Flock each
-- system call that matters. The result `none` stands for a loop that runs out of fuel; the fuel of
-- the walks of tdengine_old.c is one more than the count of the list, and that of timer.c, where
-- nothing is counted, is an argument. C's `/` and `%` round to zero, and the conversions to `int`,
-- `short` and the unsigned types keep the low bits. The messages of the timer libraries and of
-- obtain_container_ip/ are left out.
--
-- What malloc returns, what the memory from it holds, what rand returns and the time of day are
-- arguments. Where tdengine_old.c reads or writes through NULL or to freed memory while it starts,
-- the result says so; timerDecRef marks the timers that it frees.
--
-- In Os the state is a ledger of what the calls have done: a call that succeeds adds or takes what its
-- manual page says. Whether it succeeds, which descriptor it returns and what there is to read is
-- a record of functions (`Kernel`), which may answer differently at every call. malloc is taken to
-- succeed in these programs. Where they write behind an array or read an unterminated string, the
-- result is `none`; what uninitialised variables hold, inet_pton, and the strcmp of Sorting and Salary
-- are arguments. In Lookup a string is the list of its bytes, and addresses are numbers.
--
-- Not modelled: the set-up of signals and of the interval timer in tdengine_old.c, and the effects
-- of the callbacks, which run under the mutex of their controller and are a list of calls in the
-- result; the destructor of the C++ exercises; the arguments of the system calls where they are the
-- same for the whole program; the messages and the times that the programs of packet_mmap.c and
-- named_pipe/ print. seccomp/ only calls libseccomp and prctl; pid_tid/, __thread/, macro/,
-- array_sizeof/ and struct_bit_field/ print what the system or the compiler answers.
mod Base
pub mod Pool
pub mod Ctrl
pub mod Entry
pub mod Map
pub mod Wheel
pub mod Lock
pub mod CString
pub mod Os
pub mod Netns
pub mod Veth
pub mod Ip
pub mod Sorting
pub mod Salary
pub mod Getdents
pub mod Fanout
pub mod Reuse
pub mod Pipe
pub mod Echo
pub mod Flock
pub mod Lookup
pub mod Dup
pub mod Timers
