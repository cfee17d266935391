-- ===== src/Lib.antt =====
-- skynet: the message-passing core of an actor framework (skynet-1.2.0). A service is a context
-- with a handle and a message queue. Worker threads take queues from the global queue, pop a
-- message and dispatch it; the timer thread turns timeouts into messages.
--
-- Mq: skynet-1.2.0/skynet-src/skynet_mq.c. Mq/Queue has the ring of `struct message_queue` as a
--   record (`queue` is a list of cells, written or not) with `skynet_mq_create`, `_length`,
--   `_overload`, `_pop` and `expand_queue`; Mq/Global has the heap of queues, a function from
--   pointers (a freed pointer has no queue), with the list linked through `next` and the calls
--   that need it: `skynet_globalmq_push` and `_pop`, `skynet_mq_push`, `_mark_release`,
--   `_release`. Mq/Ring says what a ring holds, Mq/Overload and Mq/Expand are about the two loops
--   (Common/Ring has the one that copies a ring), Mq/Fifo about one queue, Mq/Chain and Mq/Fair
--   about the linked list, Mq/Service, Mark and Rotate about queues in use, Mq/Release about the
--   end of a queue.
-- Handle: skynet-1.2.0/skynet-src/skynet_handle.c. Handle/Slots has the slots with
--   `skynet_handle_register` (`scan`, `rehash`) and `skynet_handle_grab` (`handle_find`);
--   Handle/Names has the sorted array of names with its binary search and insertion.
--   Handle/Search, Naming and Dropped are about names, Handle/Scan, Rehash, Register, Grow,
--   Install and Retire about handles. A context is a number, and `handle_of` is what
--   `skynet_context_handle` reads of it.
-- Timer: skynet-1.2.0/skynet-src/skynet_timer.c. Timer/Wheel has `struct timer` with its two
--   arrays of lists, `add_node`, `move_list`, `timer_shift`, `timer_execute`, `timer_update`,
--   `timer_add` and `skynet_updatetime`. Timer/Place reads the masks as blocks of time, Timer/Tick
--   is about what a tick leaves in place, Timer/Nodes about the lists, Timer/Shift, Update and
--   Elapse about the operations.
-- Context: skynet-1.2.0/skynet-src/skynet_server.c. Context/Server has `struct skynet_context`
--   with its count of references, on the heap of queues of Mq and the storage of Handle: grab,
--   reserve, release, `skynet_context_push`, and `skynet_handle_grab` and `_retire` of
--   skynet_handle.c. Context/Worker has `skynet_context_message_dispatch` with the loop over a
--   queue, its weight and the calls of Monitor. Context/Count is about references, Rounds, Loop,
--   Dispatch and Idle about the dispatch.
-- Monitor: skynet-1.2.0/skynet-src/skynet_monitor.c, the detector of messages that take too
--   long.
-- Harbor: skynet-1.2.0/skynet-src/skynet_harbor.c, the test whether a handle is of another node.
-- DataBuffer: skynet-1.2.0/service-src/databuffer.h, the bytes that a connection of the gate has
--   received and not read. DataBuffer/Chunks has `struct databuffer` with its chain of chunks, and
--   the pool of nodes, by their numbers; DataBuffer/Rounds and Read are about `databuffer_read`,
--   DataBuffer/Package about the other operations.
-- Seri: skynet-1.2.0/lualib-src/lua-seri.c, Lua values as bytes. Seri/Block has `struct
--   write_block` with `wb_push` and `seri`, Seri/Value the values, Seri/Pack the functions `wb_*`,
--   `pack_one` and `luaseri_pack`, Seri/Unpack the functions `get_*`, `push_value`, `unpack_*` and
--   `luaseri_unpack`. Seri/Emit gives the bytes of a value, Appends, Packed, Words, RoundTrip and
--   Steps are about the two directions, Inverse about both, Total about every input.
-- Socket: skynet-1.2.0/skynet-src/socket_server.c for TCP. Socket/State has `struct socket`,
--   Send the two lists of write buffers with `send_buffer` and `send_socket`, Submit
--   `socket_server_send`, `close_socket` and the count of requests, Line one socket with its pipe
--   of requests and the bytes written, Server the slots with `reserve_id`, `new_fd` and the calls
--   that change the state of a socket. Flow is the specification, packages that are written whole;
--   Shape, Written, Drained, DrainLow and Drain are about `send_buffer`, Queued and Accept about
--   the requests 'D' and 'P', Waits and Give about `socket_server_send`, Order and Run about
--   sequences of these calls, Slots about the slots, Fresh about new sockets, Close about
--   `close_socket`.
-- Gate: skynet-1.2.0/service-src/service_gate.c, on the data buffer and the id map. Gate/Service
--   has `struct gate` with its answers to messages of the sockets and of clients, as lists of
--   actions. Forward, Cut and Message are about `dispatch_message`, Table about the connections
--   that come and go.
-- HashId: skynet-1.2.0/service-src/hashid.h, the map from ids of sockets to connections.
--   HashId/Table has `struct hashid` with its functions, Slots is about the free nodes, Chain
--   about the chains, Map, Insert and Fresh about the whole.
-- Netpack: skynet-1.2.0/lualib-src/lua-netpack.c, packages out of what sockets receive.
--   Netpack/Queue has `struct queue` with its ring, its chains, `push_data`, `lpop`, `lclear` and
--   `lpack`, Netpack/Filter has `push_more`, `filter_data` and `lfilter`. Netpack/Fifo is about
--   the ring, Chains about the chains, Stream about `push_more`, Taken and Waiting about
--   `filter_data`, Close about the end of a connection and `lpack`.
-- Common: shared names, lists by native numbers, Boolean tests, faults, laws of masks, lists of
--   bytes and rings. The Examples modules hold runs on concrete inputs.
--
-- Faults. A failed assert, a read of memory that is null, freed or not written, an index out of
-- bounds and a size that overflows an `int` give no result.
--
-- Fuel. The loop of the overload threshold has fuel for one round per message, since every round
-- doubles a positive threshold; the binary search has fuel for one round per name; the
-- registration has two rounds, since a table of twice the size has a free slot; the loop of
-- `timer_shift` has four rounds, one per level. Theorems show that this is enough. The loop of
-- `_drop_queue` takes its fuel as an argument, and its theorem asks for more than the messages.
-- The answers of `write` are a list, where `send_buffer` needs one more than there are it has no
-- result, and its theorems ask for an EAGAIN or a failure in the list; `reserve_id` has 2^16
-- rounds. The loop of the gate has two rounds more than the buffer has bytes. The loops of the
-- data buffer are recursions on its chain. `wb_push` has a round per byte, the loop of the
-- dispatch two rounds more than the queue has messages, the loop of `hashid_init` a round per
-- connection, the reader of lua-seri.c two calls per byte, `push_more` a call per byte.
--
-- Machine integers. Times are 32-bit with the wrap-around written out; a `delay` is below 2 ^
-- 31. Handles have 24 bits below the 8 bits of the harbor. Sizes of arrays are `int`s. An `int`
-- that counts, sums or is doubled faults where it passes 2 ^ 31 - 1, except for two sums that
-- are taken without this bound: `size` of a data buffer, and `cap` of the queue of
-- lua-netpack.c.
--
-- Not modelled: locks, threads and allocation failure, since each modelled call runs under its
-- lock; what the callbacks of services do, which the dispatch takes as a parameter, and their
-- release functions, which `delete_context` calls; the stack and the memory of Lua, which are
-- not bounded; the creation of contexts, `skynet_send` and the commands; UDP sockets and the
-- loop of `socket_server_poll`; the text commands of the gate; other Lua bindings, the vendored
-- libraries and the scripts.
pub mod Common
pub mod Context
pub mod DataBuffer
pub mod Gate
pub mod Handle
pub mod Harbor
pub mod HashId
pub mod Monitor
pub mod Mq
pub mod Netpack
pub mod Seri
pub mod Socket
pub mod Timer
