-- ===== src/Lib.antt =====
-- The dataplane operating system IX, with a key-value store on a block device.
--
-- An application runs in a sandbox above a dataplane kernel. It makes system calls, among them reads
-- and writes of keys, which the kernel serves from a store on a block device; its timers, and those
-- of the kernel's own protocols, are in a timer wheel that each core runs between polls of its
-- network queues. The parts modelled are these.
--
-- Blk: the store. The constants and `CALC_NUMBLKS` are those of inc/ix/blk.h and inc/ix/dummy_dev.h.
--   Blk/FreeList is dp/core/blk_freelist.c: the list of free extents, with `get_blk`, `free_blk`,
--   `alloc_block` and `mark_used_blk`. A linked list is a list of its entries; a loop with `prev` and
--   `iter` is a recursion with the entries round the place; a call through a null pointer and a
--   failed assertion are `none`.
--   Blk/Crc is the checksum of dp/core/blk_index.c, `init_crc` and `newer_crc`.
--   Blk/Index is dp/core/blk_index.c: the hash chains, with `key_lookup`, `get_version`,
--   `new_index_ent`, `update_index` and `delete_key`.
--   Blk/Device is dp/core/dummy_dev.c: a memory of bytes, with `dummy_dev_read` and
--   `dummy_dev_writev`.
--   Blk/Io is dp/core/io.c: `bsys_io_write` batches a write; `bsys_io_write_flush` takes blocks from
--   the free list, gives them to the entries of the batch and writes the batch to the device; its
--   callback `io_write_cb` puts the entries into the index, which gives back the blocks of the
--   entries that they replace; `bsys_io_read` finds the entry of a key and reads its blocks.
--   Blk/Scan is dp/core/blk_index.c: `init_cb` and `index_init`, which rebuild the index from the
--   metadata on the device. The loop is on fuel, an argument.
-- Timer: dp/core/timer.c and inc/ix/timer.h, the timer wheel of one core. Its state is `struct
--   timerwheel`, with the log of the handlers that were run. The code of the handlers is a parameter:
--   the requests to the wheel that each makes. The time, read from the cycle counter, is an argument.
--   `timer_run` is a loop on fuel; the fuel it is given is one more than the ticks up to the time, and
--   without fuel the wheel stands at a tick that is due. A handler that stops or moves a timer which
--   the walk of its bucket has still before it is a fault of the model, `none`.
--   Timer holds the state and the insertion, Timer/Loop the handlers and the loop, Timer/Move the
--   timers that move to another core.
-- Dispatch: dp/core/syscall.c, `bsys_dispatch`, a batch of system calls in the memory of the user. The
--   calls and the flush of the batched writes are parameters; a descriptor says whether it faults.
-- EthQueue: inc/ix/ethqueue.h and dp/core/ethqueue.c, the receive and transmit queues of one core. The
--   loop of `eth_process_recv` is on fuel, one more than the packets that wait: each round but the
--   last takes a packet.
-- Fg: dp/core/ethfg.c, with what it uses of dp/core/cpu.c: the flow groups, which are the unit of load
--   that moves between cores. The state is that of all cores, a record for the per-CPU variables of
--   each; the handlers of the cores are run one after the other. Fg/Assign is `eth_fg_assign_to_cpu`
--   with the packets and timers that it moves, Fg/Receive the reception of packets while a group
--   moves, which calls `eth_recv` of EthQueue, Fg/Finish the handlers that end a move, with
--   `cpu_do_bookkeeping`. Fg/Moving says what holds while a group is between two cores, and Fg/Store
--   what writes to the state leave. The sizes of the tables are parameters, in a record `Config`.
-- Ixev: libix/ixev.c, libix/ixev.h and libix/buf.h, a TCP connection in the library that applications
--   link: Ixev the state and the receive side, Ixev/Send the send side. The memory that packets lie
--   in is a function on addresses; the buffers that the pool gives are an argument; the handlers of
--   the application are run after the step that calls them, as a log. The loop of `ixev_recv` is on
--   fuel, one more than the entries from head to tail. Ixev/Stream runs packets and reads against a
--   queue of bytes; Ixev/Send/Flow is the step relation of the send side.
-- Mempool: inc/ix/mempool.h and dp/core/mempool.c, the pool of one core over its datastore: allocation
--   and freeing, with the hand-over of chunks.
-- Arp: dp/net/arp.c, the ARP table of one core: the entries with their pending packets, the two
--   pools, the lock of the table and the packets sent. The hash instruction, the own addresses, and
--   whether an mbuf can be had and sent are parameters, in a record `Host`. Arp holds the table,
--   Arp/Ops the operations.
-- Net: dp/net/ip.c, dp/net/icmp.c and dp/net/udp.c. Net is the input of a packet: `eth_input`,
--   `ip_input`, `icmp_input` with `icmp_reflect`, which puts its answer into a queue of EthQueue, and
--   `udp_input`. The headers are fields in the byte order of the host; what lies behind the IP header
--   is bytes. Net/Chksum is `chksum_internet` of inc/asm/chksum.h, instruction by instruction. Net/Udp
--   is `bsys_udp_send` with the pages that it holds on to, `udp_mbuf_done` and `bsys_udp_recv_done`;
--   the answers of the page tables are arguments, and so is what `arp_lookup_mac` comes to, which says
--   whether it sends a request; `arp_send_pkt` puts that request into the queue of the datagrams, in an
--   mbuf of the same pool, which is a list.
-- Sandbox: dp/sandbox/sandbox.h, `mem_ref_is_safe`, and in Sandbox/Umm dp/sandbox/umm.c, the memory
--   calls of an application. The host kernel and libdune are a parameter: what they answer each call.
--   Sandbox/Umm holds the state and the flags, Sandbox/Umm/Calls the calls.
-- Base: the shared names, Boolean tests, lists measured by native numbers, machine words, and what
--   holds of all results of a chain of steps that can fail.
--
-- Numbers are natural numbers; where the code computes in a word of w bits, the wrap is written out
-- as `% 2 ^ w`. Blk/Index, Blk/Io, Timer and Arp use other code as parameters: CityHash64, which is a
-- copy of another project's code, the hash instruction, the handlers, the host.
--
-- Not modelled: the interleaving of two cores inside a handler, and so the locks, but for the one that
-- a failure leaves held; the connections that move with a flow director group; what
-- is sent by way of the ARP table by TCP and `icmp_echo`; pages that are about to be freed; lwIP, which is a copy of another project; the device drivers; the creation of the pools;
-- measuring and printing; the control plane; and of the library that applications link, start-up and
-- the calls that only queue a descriptor.
pub mod Arp
pub mod Base
pub mod Blk
pub mod Dispatch
pub mod EthQueue
pub mod Fg
pub mod Ixev
pub mod Mempool
pub mod Net
pub mod Sandbox
pub mod Timer
