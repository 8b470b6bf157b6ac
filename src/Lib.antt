-- ===== src/Lib.antt =====
-- Lightweight 4over6: hosts of an IPv6 network keep an IPv4 access, where many hosts share one
-- public address, each with a range of its ports. The concentrator (lightweight-4over6/TC) has a
-- daemon, user_module, that answers Port Control Protocol requests, hands out ranges of ports and
-- pushes the bindings to the kernel_module, which holds them in trees and encapsulates the
-- packets. The initiator (lightweight-4over6/TI) is the customer's router: openwrt_cpe translates
-- the addresses and ports inside the range it got from mess-handle, its client of the protocol.
--
-- Which file models what:
-- Common: the shared names. Numbers are native; words keep their wrap-around written out, and a C
-- int that the code reads back with its sign is an ℤ with `pos` and `negsuc`.
-- Tc.Bitmap: TC/user_module/src/portmap.c, the eight bytes that say which units of 1024 ports of
-- an address are handed out. Tc.Bitmap.Laws and Tc.Bitmap.Ranges relate the bytes to the
-- predicate `taken` on bits.
-- Tc.Pool: TC/user_module/src/addrpoolentity.c, the ring of public addresses. `init_pool` is
-- InitAddrPool, `alloc_addr_port` is AllocAddrPort with its first block (`first_try`) and the
-- loop at FALG (`scan`), `dealloc_addr_port` is DeallocAddrPort. A pointer to a node is its index
-- from the header. The children prove what a try does (Tries), what a call does (Scan, Alloc,
-- Ports, Free), that it returns (Ends, Multiples, Total), what initialization leaves (Init), and
-- what sequences of calls by many clients do (Calls, Leases).
-- Tc.Netlink: TC/user_module/src/nlmessage.c, `handle_message` is HandlMessage, which calls the
-- pool. Tc.Options: TC/user_module/src/optionlist.c. Tc.Pcp: TC/user_module/src/pcpmsg.c,
-- `handle_pcp_request` is handlePcpRequest, with checkPcpRequest (`check_pcp_request`),
-- updateTunnelTree (`update_tunnel_tree`), delTunnel (`del_tunnel`) and the packet that
-- handlPCPRespone sends. What sockets, the kernel and the clock do is in the record `Outside`, so
-- that a request is a function of it, the request and the pool.
-- Tc.Fragments: TC/kernel_module/src/hash.c and TC/kernel_module/src/defrag6.c, `fragnode_insert`
-- is fragnodeinsert with ShashBucketFind, ShashInsert and ShashFragInsert, and
-- `fragtimeout_handle` is fragtimeouthandle. Tc.Fragments.Order, Tc.Fragments.Count and
-- Tc.Fragments.Age are about the order of the fragments, the count of their bytes, and the timer.
-- Tc.Bplus: TC/kernel_module/src/bplus.c, the B+ tree. `insert` is bpinsert with _bpinsert
-- (`insert_below`, `append_below` for a key above all, `insert_root`) and bpsplit (`split`,
-- `put_halves`, `absorb`), `find` is bpsearch, `delete` is bpdelete with _bpdelete
-- (Tc.Bplus.Delete) and bpmerge (`merge`, `settle`), `height` is bpheight and `traverse`
-- bptraverse. A part of a tree is indexed by its height, a node is a key and a list of links, and
-- the chain of values is a list. The children: the keys as bytes (Keys), the invariant and the
-- search (Spans, Search), the splits (Split), an insertion below (Insert, Append), the chain
-- (Chain) and as a whole (Refine), Tc.Bplus.Delete with the same for a deletion (Unlink, Leaf,
-- Merge, Inner, Below, Whole, Refine), the bound of the height (Height), and a list of calls
-- against a partial map (Simulate).
-- Tc.Tunnels: the two trees of TC/kernel_module/src/storage.c that lead to the tunnels of
-- TC/kernel_module/src/packet.c. `create_tunnel` is CreateTunnel, `delete_tunnel` DeleteTunnel,
-- `tunnel_time_check` TunnelTimeCheck, and `handl_message` is HandlMessage of
-- TC/kernel_module/src/netlink.c, with `alloc_addr` for NETLINK_ALLOC_ADDR. A pointer is a
-- number, and the memory is a function from pointers to tunnels. The children: the trees as maps
-- (Maps), a tunnel that is created (Pairs), deleted (Release), checked and looked up (Ages), and
-- the messages of the daemon (Messages).
-- Tc.Encapsulate: packets longer than the MTU, IPv4FragandIPinIP of TC/kernel_module/src/packet.c
-- and pkt_fraghandle of TC/kernel_module/src/defrag6.c; the sizes of fragments (Balance), what
-- they cover (Covers), and the packets that are sent (Packets).
-- Tc.Users: the query of the users, TC/kernel_module/src/tcuserinfo.c (`process_info` and
-- `process_total` are process_user_info, `bptrav_user_info` is BPTravUserInfo, `send_user_info`
-- send_user_info) and TC/user_module/src/tcuserinfo.c (`get_tc_user_data` is GetTcUserData). The
-- children: one message (Messages), all messages of a list of users (Deliver), and a query from
-- the trees (Query).
-- Tc.Mss: patch_tcpmss and fix_msscksum of TC/kernel_module/src/packet.c, which lower the segment
-- size that a TCP connection announces. The children: the words of a packet and their sum
-- (Words), the loop over the options (Scan), the options as the protocol lays them out (Options),
-- the search for the size (Search), and the patch (Clamp).
-- Cpe.Checksum: TI/openwrt_cpe/src/helper.c, `ip_checksum`, `csum_incremental_update` and APHash
-- (`ap_hash`), for either byte order and any unsigned long of at least 32 bits.
-- Cpe.Ports: TI/openwrt_cpe/src/tool.c, the tables of ports in use: `get_port` and `reset_port`
-- work on one table, and get_tcp_port, get_udp_port, reset_tcp_port and reset_udp_port apply them
-- to either, `mark` and `unmark` are the bit operations on the table. Cpe.Ports.Bits and
-- Cpe.Ports.Count relate the words and the counter to the predicate `taken`, Cpe.Ports.Get is
-- about one call, Cpe.Ports.Held about the sessions that hold ports, and Cpe.Ports.Icmp about the
-- identifiers that get_icmp_port chooses.
-- Cpe.Track: TI/openwrt_cpe/src/packet.c, the states of a session and what a packet does to it.
-- What a handler does to the table of sessions is a list of effects, which `run_effects` carries
-- out on the ports. Cpe.Track.Laws is about one packet, Cpe.Track.Sequences about the handshake
-- and resets.
-- Cpe.Filter: TI/openwrt_cpe/src/tool.c, ipdst_filter in its two byte orders.
--
-- Fuel: `init_from`, `scan` and `get_from` recurse on fuel, and the theorems say how much is
-- enough: one round for each address and one, and `alloc_fuel` for a call of AllocAddrPort, the
-- rounds of a walk over the whole ring; `get_from` needs one round for each port and one,
-- `pieces_from` more rounds than bytes, and `scan` of Tc.Mss as many rounds as the segment has
-- bytes. Where no fuel is enough, a theorem says so.
--
-- Not modelled: sockets, threads, netlink, logs and the glue of both kernel modules, which only
-- move data between the parts above; nor the translation of packets and the client of the
-- protocol, which are outside of the parts above.
pub mod Common
pub mod Cpe
pub mod Tc
