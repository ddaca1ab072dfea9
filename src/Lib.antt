-- ===== src/Lib.antt =====
-- Verification library of the game server repository: models of its server runtimes, and the
-- theorems that make them correct.
--
-- The repository follows a course on game servers. Its programs run on two runtimes that pass
-- messages between services: skynet, in C, under 02_skynet/lib/skynet, which carries the servers
-- of 02, 03, 04 and 09; and Sunnet, in C++, which grows from 05_C++_concurrency over
-- 06_tcp_network_module to 07_embed_lua. Both have the same plan: a service has a queue of messages
-- and a flag that says whether it is in the global queue of services with work; worker threads
-- take services from the global queue, handle some messages and put them back.
--
-- Which file models what:
--   Skynet/Mq        skynet-src/skynet_mq.c: the ring of messages of one service. `create`, `push`
--                    (with `expand`, that is expand_queue), `pop`, `mark_release`, `release_queue`.
--                    Mq/Invariant has the invariant,
--                    Mq/Push and Mq/Pop the operations, Mq/Client any sequence of them;
--                    Prelude/Ring has the lemmas on the contents of a ring.
--   Skynet/Handle    skynet-src/skynet_handle.c: the table from handles to contexts and the sorted
--                    array of names. `register` (its inner loop is `scan`, its growth `grow`),
--                    `retire`, `grab`, `find_name`, `name_handle`. The contexts of skynet_server.c
--                    that it reads are `Contexts`. Handle/Slots, Grow, Scan and Register are about
--                    the table, Names and Naming about the names, Keep about the invariant,
--                    RetireAll about skynet_handle_retireall.
--   Skynet/Timer     skynet-src/skynet_timer.c: the wheel of timers. `place` and `add_node`,
--                    `move_list`, `timer_shift` (its loop is `shift_loop`), `timer_execute`,
--                    `timer_update`, `timer_add`. Timer/Blocks has the arithmetic of the levels,
--                    Lists the contents of the lists, Tick a shift, Update an update, Fire many.
--                    Clock has `skynet_timeout` and `skynet_updatetime`, Clock/Timeouts when they
--                    answer.
--   Skynet/Databuffer  service-src/databuffer.h: the bytes that wait on a connection, in chunks.
--                    `push`, `read`, `readheader`; Contents has the bytes, Header the packets.
--   Skynet/Hashid    service-src/hashid.h: socket ids to slots. Chains and Map: a finite map.
--   Skynet/Gate      service-src/service_gate.c: packets out of socket data, and the table of
--                    connections. `dispatch_message`, `dispatch_socket_message`. Frames has the
--                    packets, Faults what goes wrong.
--   Skynet/Dispatch  skynet-src/skynet_server.c, the workers of skynet_start.c and the global queue
--                    of skynet_mq.c: `step` is what a thread does next, from `launch`
--                    (skynet_context_new) over `context_push`, `mq_push`, `swap` and
--                    `dispatch_round` (skynet_context_message_dispatch) to `context_release`,
--                    `mark_release` (delete_context) and `mq_release`. Count and Sound have the
--                    invariant, Frame what a step leaves as it is, References, Handles, Queues,
--                    Freeing and Messages the steps, Interleaving the runs.
--   Skynet/Send      skynet_send of skynet-src/skynet_server.c, and skynet_harbor.c: `send` with
--                    `filter_args` (_filter_args), `newsession`, `isremote`, `id_to_hex`. Sessions,
--                    Packing, Ownership and Hex have one of these each.
--   Skynet/Monitor   skynet-src/skynet_monitor.c: `trigger` and `check`; Reports says when a check
--                    reports.
--   Skynet/Socket    skynet-src/socket_server.c, the messages of one TCP socket: `send_buffer` with
--                    `send_lists` and `send_low` (send_buffer_), `send_list` (send_list_tcp),
--                    `raise_uncomplete`, `send_socket`, `force_close`. Socket/Events has what workers
--                    and the socket thread call, and `event`, one call. Sound has the invariant,
--                    Writing send_list_tcp, Moves, Closing, Sending and Messages the parts of a step,
--                    Events/Workers and Commands the calls, Order the runs, Faults what goes wrong.
--   Skynet/Netpack   lualib-src/lua-netpack.c: `filter_data` (filter_data_) with `fill`, `resume` and
--                    `filter_fresh`, its branches, `push_more`, `push_data`, `find_uncomplete`,
--                    `lpop`, `lpack`; Messages has `lfilter`, and Serve the loop of
--                    lualib/snax/gateserver.lua. Ring, Chains and Packets are about the ring, the
--                    table and the stream, Steps, Fill and Filter about the branches, Delivery
--                    about all chunks. The fuel of `push_more` is the number of bytes, of which
--                    each packet has two, that of `dispatch_queue` the size of the ring.
--   Skynet/Seri      lualib-src/lua-seri.c: the chain of blocks that values are written to, `wb_push`
--                    with `place`, its loop, whose fuel is the number of bytes, as each round but the
--                    first copies a whole block, and `seri`; Blocks has what a chain holds. Scalars has
--                    the values that are not tables, `wb_integer`, `wb_string`, `get_integer`,
--                    `push_scalar`, with Bytes, Numbers and Strings about reading them back. Values
--                    has all values, `pack_one` with `pack_array` (wb_table_array) and `pack_hash`
--                    (wb_table_hash), `unpack_one`, `push_value`, `unpack_table`, `luaseri_unpack`.
--                    Layout says what a packed value looks like, Packing and Refusing when there
--                    is one, Reading, RoundTrip and Unpacking that it is read back. The fuel of
--                    reading is the number of bytes, of which each value has one at least.
--   Sunnet/ConnWriter  07_embed_lua/src/ConnWriter.cpp: the data that waits to be written to one
--                    socket. `entire_write`, `linger_close`, `on_writeable`, `write_front_obj`.
--   Sunnet/Sched     07_embed_lua/src/Sunnet.cpp, Service.cpp and Worker.cpp: `Send`, the global
--                    queue, the workers, sleep and wake-up. One action is what one thread does
--                    under one lock, so a list of actions is an interleaving.
--                    Sched/Owner has the invariant, Workers and Senders its preservation,
--                    Interleaving and Runs what holds of every interleaving, Order the order of
--                    the messages.
--   Prelude          shared names, arrays, bit operations, and integers over the native numbers.
-- A Tests module has runs on concrete inputs.
--
-- State is a record and every operation a function on it; C arrays are lists; an assertion that
-- fails, undefined behaviour, or fuel that runs out is `none`. Unsigned numbers of 32 bits keep
-- their wrap-around. Pointers are numbers or are left out where the code only moves them.
--
-- Fuel: raise_threshold has the length as fuel, since the threshold at least grows by one in each
-- round; drop_queue needs one more than the number of messages; register needs two rounds, one
-- growth at most; retire_all needs two passes; the search of names needs the length of the interval and one; write_loop needs
-- one more than the number of objects that wait. Each is proved to be enough where a theorem
-- needs it.
--
-- Bounds: a ring holds fewer than 2^30 messages before its capacity would leave the range of a C
-- int; the bytes of a packed value, and of a buffer that a ConnWriter writes, are fewer than 2^31,
-- since the code counts them in an int, and a push that does not fit is none; an id and the slots of
-- a Hashid add up to 2^31 at most; the table of handles grows to 2^24 slots. The theorems on the timer stop before its
-- clock of 32 bits wraps around.
--
-- Parameters: the results of read(2) and write(2), what `gettime` of the timer gives, where malloc
-- puts the copy of a message's data and the interface of socket objects has the bytes of one, and
-- the contents that the allocator leaves in a new ring.
--
-- Not modelled: locks, which are what makes an operation one step; of skynet's
-- sockets what opens, listens and accepts, and UDP; its harbor service; Lua code but for the loop of
-- lualib/snax/gateserver.lua, and the bindings to Lua;
-- copies of other libraries (02_skynet/lib/skynet/3rd, 07_embed_lua/3rd, 01_lua_study/include).
-- In Skynet/Dispatch a new context has a handle before it has a queue, as in the code, and a
-- message that is pushed in between, to a pointer that is not set, is `none`; a handle is not
-- given twice, while the code comes round to it after 2^24 registrations; a thread that still has
-- a reference to give back may do so later than in the code, which allows more orders than the
-- code has; the dropping of a deleted context's queue is one step, since no one else has it.
-- In Skynet/Socket a send that is counted and its command in the pipe are one step, and sp_enable
-- does not fail.
-- In Skynet/Netpack descriptors are not negative, the ring may grow beyond an int, the handler
-- of the gate does not block, and the set of open connections stays as it is while chunks come.
-- In Skynet/Seri tables with `__pairs` are left out, integers are the 64 bits of a lua_Integer, the
-- lowest byte of a number comes first in memory, and no key in a stream is a NaN.
-- In Sunnet/Sched a woken worker counts as awake at once, where the code counts it down when it
-- has the lock again; what a service does with a message is left out, but the sends that it makes
-- are actions like any other, and messages are numbers. OnInit of a new service and OnExit of a
-- killed one are left out: they run the service's Lua in the thread of the caller, beside a worker
-- that may process the service.
pub mod Prelude
pub mod Skynet
pub mod Sunnet
