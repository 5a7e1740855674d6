-- ===== src/Lib.antt =====
-- hack: packet processing, kernel modules, socket servers and text tools. Eighteen parts of the repository are
-- modelled: the XDP programs of ebpf-xdp, which look at a frame before the network stack does; the forwarding program
-- of ebpf-xdp/xsk, which takes frames out of the kernel and sends them on; the driver of keth-if, a pair of
-- network devices of which each is the far end of the other; the list of ksync-rcu; the devices of kmisc
-- and ksync-mutex; that of kchar-dev; the search of grep; the counting of wc; the conversions
-- of hex; the packets of sock-raw-mmap-packet-ip; the servers of sock-select-tcp, and of sock-epoll-tcp with
-- sock-thread-ctx-tcp; ncat; the drivers of kfsproc and kfssys, with files under /proc and /sys; the map of
-- hashmap; and the wireless device of kwlan-if.
--
-- Base has what they share. Base/Tests has the tests of C conditions over the native numbers, Base/Lists
-- arrays as lists, Base/Fault the accesses that may fault, Base/Int integers and the error numbers of the kernel,
-- and Base/Text the text of a C string.
--
-- Xdp: a packet is the list of its bytes; `ctx->data` is offset 0 and `ctx->data_end` the length of the
-- list. A load or store outside the packet is `none`, so that a program that `Runs` has had every access
-- checked. Words are read as on a little-endian machine, and htons is written out.
--   Xdp/Memory: loads, stores and memcpy.
--   Xdp/Parsing: ebpf-xdp/packet/kernel/parsing_helpers.h, one function per parser. The loop over VLAN
--     tags is recursion on the VLAN_MAX_DEPTH rounds that the source unrolls.
--   Xdp/Rewrite: ebpf-xdp/packet/kernel/rewrite_helpers.h. The kernel's bpf_xdp_adjust_head is a parameter.
--   Xdp/BlockPort: ebpf-xdp/packet/kernel/xdp_packet_block.c, which calls the parsers. The counter in its
--     map is a value that is there or not.
--   Xdp/MapAllow: ebpf-xdp/kernel/xdp_map_allow.c. The map lookup is a parameter.
--   Xdp/Route: what the next two share, the route lookup and the redirections as a record of parameters.
--   Xdp/RedirectDev: ebpf-xdp/kernel/xdp_redirect_dev.c.
--   Xdp/RedirectXsk: ebpf-xdp/kernel/xdp_redirect_xsk.c and _xsk_def_xdp_prog.c.
-- Messages (bpf_printk) are not modelled, nor the statistics of stats_kern.h, nor the loaders in user space.
--
-- Xsk: the forwarding program of ebpf-xdp/xsk, in af_rxtx.c, af-rxtx-core.h and main.c. Frames of a memory
-- area go from a pool through a cache to the fill ring of a port, come back with packets in its receive ring,
-- go out by the transmit ring of another port and return by its completion ring to a cache. `none` is an
-- access outside an array, or a wait for room in a ring that lasts as long as the answers that are given.
--   Xsk/Pool: the pool of slabs and the caches; Xsk/Pool/Start sets the pool up and takes it down, and
--     Xsk/Pool/Shared has the calls of many caches in any order: each uses the pool in one stretch under
--     its lock.
--   Xsk/Port: port_init and the two bursts. The rings of libxdp are lists, and what their calls answer is a
--     record of parameters. MAX_BURST_RX and MAX_BURST_TX are 1, as in the source.
--   Xsk/Thread: a round of a thread for a port, which receives and sends; Xsk/Thread/Reach has the rounds
--     of all threads and the moves of the kernel in any order, each as one step. Xsk/Thread/Loops has the
--     two thread functions and the sharing out of the ports in main. The arrays of a thread have 16 entries,
--     as in the source; the burst_tx of all 64 threads are one list, one thread behind the other.
--   Xsk/Args: the command line, over what getopt_long returns.
-- The calls that wake the kernel up, the deletion of sockets, the pinning of threads, the statistics and the
-- rest of main are left out.
--
-- Keth: keth-if/kernel/core.c and core.h. The state is both devices, each with its pool of packets, its
-- receive list, its lock and the calls that it has made to the network stack. An operation ends with a
-- state, waits forever for a lock that the driver holds itself (`deadlock`), or writes past the array of a
-- packet (`overflow`).
--   Keth/Model: the state, the locks, and what is asked of the kernel (the transmit queue, the checksum).
--   Keth/Pool: the pool and the receive list; Keth/Pool/Sound has the invariant of the devices, and what
--     it means that no packet is lost.
--   Keth/Receive: the poll, the two interrupt handlers. The loop of the poll is recursion on the budget.
--   Keth/Transmit: dummeth_xmit and dummeth_hw_tx, with the interrupts that they raise on both devices.
--   Keth/Control, Keth/Header, Keth/Startup: configuration and timeouts, headers, module entry and exit.
-- Operations are run one after another: an interrupt arrives where the source itself raises it. That
-- dummeth_hw_tx rewrites a long frame in the buffer of its caller is not modelled, nor are the messages.
--
-- Rcu: ksync-rcu/list_rcu.c. Rcu/Books has the functions on the list, Rcu/Books/Heap the memory that they
-- allocate and free. Nodes are not written once they are in the list, so it is a list of contents with
-- addresses; what kzalloc gives is an argument. Rcu/Shelf is what the module promises, without addresses,
-- and Rcu/Race the two halves of borrow_book when another caller comes between. Memory orders are not
-- modelled, and a grace period ends when the history says so.
--
-- Misc: kmisc/miscdrv_rdwr.c, the calls on the device with what the kernel answers as arguments. The strings
-- functions strnlen and strlcpy are written out; a read behind a buffer is `none`.
--
-- Mutex: ksync-mutex/mutexlock_misc.c, with what runs under a mutex as one step, and the two halves of a read as
-- two. Callers take turns as a list says.
--
-- Kchar: kchar-dev/char_dev_driver.c, whose device gives a message to one reader at a time. `%d` of sprintf is
-- written out for up to 10 digits, as many as an int has; the counter wraps around as the 32-bit int that
-- it is.
--   Kchar/Decimal: the digits of a number.
--
-- Grep: grep/grep.c. Grep/Vector has its arrays that grow and shrink by one, Grep/Search the search in rows,
-- with the strstr of the C library written out. A string is the list of its characters; allocation succeeds,
-- as the code supposes, and the freeing of copies is not modelled. The loops are recursion on the rounds
-- that are left. Arguments, files and printing are left out.
--
-- Wc: wc/wc.c. Wc/Count has the counting of lines and words, with strsep and strtok written out. A read
-- behind the end of the buffer is `none`. The loops run on fuel, one more than the bytes of the buffer, and
-- each round reads at least one byte. The counters are not taken modulo 2^64.
--
-- Hex: hex/hex.c, with the formats `%02X` and `%2x` of the C library written out. The loops are recursion on the
-- rounds that are left; lengths are not taken modulo 2^32.
--
-- Raw: sock-raw-mmap-packet-ip/client/client.c, the checksum and the making of a packet. What the memory holds
-- behind the allocation is an argument, since the checksum reads it; sums are of native numbers, which is what
-- an unsigned long holds for fewer than 2^32 words. The rings and the set-up of the sockets are left out.
--   Raw/Checksum: sums of words and their carries; Raw/Writes: the fields of the headers; Raw/Packets: the packet.
--
-- Select: sock-select-tcp/server_s.c, a round of the loop in main. What the kernel answers is an argument: which
-- descriptors are ready, what accept and read give, whether close fails. The state is the table of
-- connections and the descriptors that are open. A set of descriptors ends at FD_SETSIZE, 1024.
--   Select/Table: the table and what is open; Select/Reply: the text that is sent; Select/Rounds: the rounds.
--
-- Epoll: sock-epoll-tcp/server_ep.c and server_handle.c, and sock-thread-ctx-tcp/worker.c with server_thandle.c,
-- which has the same handlers. A round gives the calls that it makes, in their order. Each worker has its own
-- socket and its own events, so one is modelled.
--   Epoll/Closings: what the server closes; Epoll/Stale and Epoll/Idle: what a worker does with old events.
--
-- Ncat: ncat/ncat.c. The sizes of the buffers are arguments of the loops, which main takes from ncat.h. What read
-- and fgets give is an argument. The set-up of the sockets is left out.
--   Ncat/Arguments: the options; Ncat/Lines: what the client sends; Ncat/Messages: what the server prints.
--   Ncat/Client: the two threads of a client, as steps in any order. What is done between a lock and its unlock is
--     one step, but for the reader, which reads with the lock held. Ncat/Client/Waits has what is sent in the
--     meantime, and Ncat/Client/Lost what happens after the connection is lost.
--
-- Procfs: kfsproc/procfs_if.c, the writes to its files, and the start and end of the module. What runs under its
-- mutex is one step; kstrtoint and kstrtoul are parameters. The context is behind a pointer that is null, an
-- error, freed, or points to it.
--   Procfs/Levels: histories of writes; Procfs/Life: from start to end; Procfs/Accepts: which numbers are taken.
--
-- Sysfs: kfssys/sysfs_if.c, in the same way; Sysfs/Levels has its histories, and its start and end.
--
-- Hashmap: hashmap/main.c, a fixed array of slots. A sum that no int holds, and an access outside the array, are
-- `none`. Hashmap/Slots has what is found after a store, Hashmap/Bounds which keys lead outside.
--
-- Wlan: kwlan-if/core.c, what the kernel asks of the device, and the routines that its work queue runs later. Each
-- runs as a whole, in any order; whether a signal keeps it from its semaphore is an argument.
--   Wlan/Calls: histories of calls and routines; Wlan/Names: names in their array; Wlan/Scans: what becomes of
--     the scans; Wlan/Stuck: a scan whose routine has been interrupted; Wlan/Context: the context from its
--     making to its end.
--
-- Not modelled: the programs around TLS, DTLS and cryptography (sock-tls-*, sock-dtls-udp, crypt-*), which are calls of
-- OpenSSL in a loop; the web servers of nat-server, http and websocket, which are examples of other projects;
-- the loaders of XDP programs and the remaining kernel modules, which are calls of their frameworks; and the
-- demonstrations of devices, graphics and databases, and those in other languages. The other tools on text and
-- arrays (vector, stream, cat, struct) and the poll servers are like parts that are modelled.
pub mod Base
pub mod Xdp
pub mod Xsk
pub mod Keth
pub mod Rcu
pub mod Misc
pub mod Kchar
pub mod Hex
pub mod Mutex
pub mod Grep
pub mod Wc
pub mod Raw
pub mod Select
pub mod Epoll
pub mod Ncat
pub mod Procfs
pub mod Sysfs
pub mod Hashmap
pub mod Wlan
