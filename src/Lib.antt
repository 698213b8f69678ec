-- ===== src/Lib.antt =====
-- BlueBridge: shared memory over IPv6 addresses.
--
-- Vmem models ip6/lib/vmem, the virtual memory that pages blocks between frames and a store:
-- - Vmem/Dll: the doubly linked list of page_table.c (createdllListNode, moveListNodeToFront,
--   deletedllListNode) on an explicit heap, where reading or writing through NULL or a freed node is
--   a fault. Vmem/Dll/Links, Parts, Refine and Remove relate it to the sequence of its nodes.
-- - Vmem/Hash: hashFunction, insertHashNode, deleteHashNode, getHashNode; Vmem/Hash/Lookup reads the
--   table as a map.
-- - Vmem/Lru: the state that LRU_page_fault_handler and FFIFO_page_fault_handler share, deleteLRU, and
--   the laws of both.
-- - Vmem/Policy and Vmem/Backing: what a fault handler needs of its replacement policy and of the
--   store behind the frames. Vmem/Policies fills the first for LRU and FFIFO, Vmem/Mem the second for
--   mem.c.
-- - Vmem/PageTable: struct page_table with the globals beside it, page_table_set_entry,
--   page_table_get_entry, readData, writeData and page_table_create. The hardware's mapping is the
--   table's: remap_file_pages and mprotect hand it over.
-- - Vmem/Fault: the handler. LRU_page_fault_handler and FFIFO_page_fault_handler are one text over
--   different policies. Its branches are in Fault/Fill, Fault/Replace and Fault/Grant.
-- - Vmem/Trace: programs that fault and write, against a flat memory.
-- - Vmem/Signal: internal_fault_handler, from an address to a page. Vmem/Flush: page_table_flush under
--   the list policies, its loop on fuel for one turn more than pages are tracked; Flush/Drain follows
--   it. Vmem/Threads: register_vmem_threads and init_vmem_thread under LRU.
-- - Vmem/Rand: RAND_page_fault_handler over the hash table; Rand/Probe follows its probing, Rand/Laws
--   makes it a policy, and Rand/Handler compares it with the handler of the list policies.
-- - Vmem/Disk: disk.c over files given as a parameter; Disk/Paging makes it a store behind the frames.
-- - Vmem/Raid: rrmem.c's parity45, checkParity45, repairStripeFromParity45 and the RAID 4 cases of
--   rrmem_write and rrmem_read, between the block and the hosts' buffers. Vmem/Raid/Laws has the laws
--   of the exclusive or; Stripes, Restore and Repair follow a block through its stripes. Vmem/Raid/Levels has RAID 0 and 5
--   and the whole of rrmem_read and rrmem_write; Around, Last and Whole follow a block through them.
-- - Vmem/Rmem: rmem.c's rmem_read and rmem_write over the client library; Vmem/Rmem/Paging makes them
--   a store behind the frames. Vmem/Rmem/Allocation has fill_rmem, rmem_allocate and rmem_deallocate;
--   Allocation/Spread and Ready follow the blocks over the hosts.
-- - Vmem/Tests: the theorems at concrete tables, and runs.
--
-- The remote memory, from the wire up:
-- - Types and Types/Codec: types.h, the address that is also a command and a pointer, and its bytes.
-- - Memory: flat byte memory with the C library's memcpy and memset. Bits: the
--   bitwise operators.
-- - Server: the handlers of server_lib.c (allocate_mem to trim_mem, process_request);
--   Server/Requests counts their replies.
-- - Net: the client's sends and receives, of network.c and raw_backend (cooked_send,
--   cooked_batched_send, simple_epoll_rcv, write_packets, handle_packet). The network between is
--   taken to lose and reorder nothing and to route on an address's subnet.
-- - Client: client_lib.c, its single and burst operations; Client/Bulk the bulk and uniform ones.
--   Client/Counts and Client/Await count a burst's packets and receives, Client/Chunk follows one
--   packet, Client/Burst and Client/Readback a burst, Client/Runs and Client/Batches a bulk write,
--   Client/Fetch a burst of reads and Client/Fetches a bulk read, Client/Single one write or read,
--   Client/Uniform the operations on a block, Client/Allocation its allocation, Client/RoundTrip a
--   write and the read after it.
--   calloc of the servers is the parameter `fresh`.
-- - Client/Tests: these theorems at concrete packets and addresses.
--
-- Rpc models ip6/apps/thrift, calls whose arrays stay in remote memory:
-- - Rpc: thrift_utils.c, pointers to remote memory and their bytes in a message; Rpc/Pointers and
--   Rpc/Arguments follow the blocks of a call.
-- - Rpc/Ddc: the services of ddc_simple_arr_comp_server.c, over the client library; Rpc/Ddc/Increment
--   and Add compare them with Rpc/Tcp, those of tcp_simple_arr_comp_server.c, whose arrays are in the
--   messages. Rpc/Tcp/Words and Matrix are about the other services there.
-- - Rpc/Caller: test_increment_array of ddc_client.c, whose call is a parameter; Rpc/Caller/Whole runs
--   it with the service at another client of the same servers. Rpc/Tests: all at concrete arrays.
--
-- Simulator models legacy/OldPageTable/experiment, a simulated memory with a choice of policies:
-- - Simulator/Clock, Fifo (with rand.c), Lru and Opt: what each policy keeps, its eviction and what it
--   does at a reference. A frame is its number, which the code takes from the entry's upper bits.
-- - Simulator/Bitmap: swap.c's bitmap of free space; Bitmap/Marks, Alloc and Create have its laws.
--   Bits/Test reads single bits of the words.
-- - Simulator/Paging: pagetable.c's frames for pages, with the swapping of swap.c, over a policy and a
--   remote memory that are arguments; Paging/Linked says how entries and frames point at each other,
--   Paging/Contents what the pages hold, Vacated and Found follow an access.
-- - Simulator/Tests: these theorems on small memories.
-- The sweep of the clock has fuel for one frame more than there are, a whole turn and the first frame
-- again, which is enough for every hand in range; the probing of the random policy has a whole turn.
--
-- Conventions. `none` is an abort of the program, a fault of the machine, or a wait for
-- a packet that never comes. A frame and a block are lists of bytes; counters that the program prints
-- wrap at 2^64; counts of allocated nodes do not, as memory ends first. malloc and calloc succeed, and
-- addresses are not used again. What the code leaves uninitialised is an argument.
-- One thread is modelled, with the frames from start_frame to end_frame.
--
-- Not modelled: what only prints, the sockets and the operating system's calls, client_lib.c's
-- read_raid_mem and write_raid_mem, which are marked deprecated (the hosts' buffers between them and
-- rrmem.c are given, as what was sent to the hosts that answer), and the parts that
-- PROJECT.json lists as planned.
pub mod Bits
pub mod Client
pub mod Memory
pub mod Net
pub mod Prelude
pub mod Rpc
pub mod Server
pub mod Simulator
pub mod Types
pub mod Vmem
