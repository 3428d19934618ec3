-- ===== src/Lib.antt =====
-- A verification library for the CU fast path: the XDP program that takes GTP-U packets between the
-- UPF (N3) and the DU (F1-U) past the CU's own stack, and the userspace program that feeds it.
--
-- The program. artifact/stage_4/xdp_gtp_inner_parser.bpf.c is one XDP function, parse_gtpu. It parses
-- Ethernet, IPv4, UDP and GTP-U, reports every UDP packet in a ring buffer, and rewrites and redirects
-- a G-PDU whose TEID has an entry: in session_map for the downlink (N3 to F1-U), in ul_session_map for
-- the uplink (F1-U to N3). artifact/stage_4/xdp_gtp_inner_parser_user.c fills these two maps from what
-- it sees in F1AP and NGAP messages, in ARP tables and in the reported events. The two programs share
-- the maps and the ring buffer only.
--
-- Where it is modelled.
--   Base         library names, ℤ over the native ℕ, Boolean tests, list helpers
--   Packet       the packet's bytes by offset from ctx->data; Packet/Copy the two unrolled payload
--                loops, Packet/Checksum the IP checksum
--   Session      struct session_ctx, the maps from TEID to session_ctx, bpf_map_update_elem
--   Event        struct gtp_event
--   Parse        parse_gtpu from its first line to the label submit, a function for each stage
--                between two gotos; Parse/Bounds the cursor, Parse/Shapes the two framings,
--                Parse/Loop induction on the extension loop, Parse/Chain and Parse/Extensions the
--                extension headers, Parse/Count and Parse/Qfi what the event passes on
--   Xdp          the maps, the ring buffer, the verdicts and the helpers that parse_gtpu calls
--   Rewrite      the header writes that both offload blocks make
--   Downlink     the downlink offload block (downlink, dl_rewrite, dl_write)
--   Uplink       the uplink offload block (uplink, ul_rewrite, ul_write)
--   Program      parse_gtpu as a whole; below it what holds of it on every packet
--   Overlap      the PDCP sequence number when several CPUs have packets of one session at once
--   Switch       the abstract switch that parse_gtpu implements: Switch/Views what packets and maps
--                stand for in it, Switch/Steps and Switch/Refines the comparison
--   Learner      maybe_populate_ul_session_map, maybe_complete_ul_session_map,
--                maybe_learn_and_populate, and what print_event does to session_map
--   Watcher      one round of f1ap_watcher_thread, ngap_watcher_thread, du_mac_refresh_thread and
--                upf_mac_refresh_thread, parse_colon_hex_teid, the SEED_SESSION block of main;
--                Watcher/Stream the two watchers over the whole output of tshark, Watcher/Transcript
--                and Watcher/Heard what they take from it
--   Race         the calls of maybe_complete_ul_session_map that three threads make at the same time,
--                step by step; Race/Alone a call by itself, Race/Advance and Race/Settles calls
--                while nothing is learned, Race/Whole and Race/Stale calls while something is
--   Report       what print_event prints, a value for each printf; Report/Fate what it says of the
--                packet; Report/Select a part of it
--   Arp          lookup_mac_by_ip and parse_mac of that file: Arp/Words the fields of a line, Arp/Octets
--                the MAC address, Arp/Rows the entries as text, Arp/Table the ARP table through fgets,
--                Arp/Probe flush_arp_entry, force_arp_resolve and a round of du_mac_refresh_thread
--   System       both programs as a step relation: packets, events, lines, ARP rounds and seeded
--                sessions in any order; System/Progress and System/Following when the fast path
--                comes to be used, System/Current that the downlink endpoint stays the DU's,
--                System/Accounts the packet counters and the ring buffer
--   Startup      main of the same file: the resources it takes and gives back, and its threads
--   PlaneCount   another program, which counts user plane and control plane packets:
--                ebpf-udp-sctp-pkt-count/xdp_plane_count.bpf.c and xdp_plane_count_user.c
--   PduExtender  pdu-extender/xdp_gtp_inner_parser.bpf.c, the parser without offload, which stages 1
--                and 2 have as well; PduExtender/Extends compares it with stage 4;
--                PduExtender/Userspace xdp_gtp_inner_parser_user.c, PduExtender/Printed its output
--   FirstParser  ebpf-gtp-parser/xdp_gtp_inner_parser.bpf.c, the parser for port 2152 with its smaller
--                event; FirstParser/Forgets compares it with the PDU extender, and
--                FirstParser/Userspace what xdp_gtp_inner_parser_user.c prints
--   Stage1       artifact/stage_1: the relay of xdp_gtp_inner_parser.bpf.c, which rewrites in place
--                (Stage1/Relayed, Stage1/Reads, Stage1/Relays), and the session learning and main of
--                xdp_gtp_inner_parser_user.c (Stage1/Learning, Stage1/Startup)
--   Stage2       artifact/stage_2/construct_and_forward/xdp_gtp_inner_parser.bpf.c, the downlink
--                reframing for payloads of up to 1400 bytes, which Stage2/Agrees compares with stage 4
--                and Stage2/Delivery follows to what leaves;
--                Stage2/Learning and Stage2/Startup the session learning and main of
--                xdp_gtp_inner_parser_user.c, Stage2/Learned the comparison with stage 4
--   Stage3       artifact/stage_3/xdp_gtp_inner_parser_user.c: its session learning, which
--                Stage3/Agrees compares with stage 4
--   PktCount     ebpf-pkt-count/xdp_count.bpf.c and xdp_count_user.c, the packet counter
--   Tests        concrete packets, tables and platforms, runs of the model on them, and instances of
--                the results
--
-- Numbers. Fields are natural numbers; a counter or a length that can wrap has its `% 2 ^ w` written
-- out. Addresses, ports and TEIDs are the numbers that their bytes spell in network order, so the
-- byte-order functions stand in the reads and writes of packets (be16, write16 and so on). The IP
-- checksum is summed in the order of a little-endian machine. Pointer differences are in ℤ.
--
-- Bounds. The extension loop has MAX_EXTENSION_HEADERS = 4 rounds and the payload loops have
-- MAX_INNER_MOVE_BYTES = 512, as in the code, where they are unrolled; longer payloads are turned away
-- before the loop, so the rounds are enough, which Packet.Copy and the two Payload modules show. Stage 2
-- has 1400 rounds in their place. The loops of the watchers and of lookup_mac_by_ip have a round for
-- each byte of the text, which is enough since fgets takes a byte at least.
--
-- Parameters. bpf_xdp_adjust_tail, bpf_ringbuf_reserve, bpf_map_update_elem, inet_pton, inet_ntop and
-- what the ARP lookup finds are arguments, and so are the kernel's neighbour table and the sockets of
-- the ARP probe; what is relied on of them is IsAdjustTail, CanResize, IsUpdateElem, IsUpdateAny,
-- HasRoom, IsInet and IsNeighbours. Tests has instances of all of them.
--
-- Not modelled. Packets that several CPUs process at once, but for their sequence numbers; the
-- interleaving inside one round of a thread (a round is one step), but for the calls that write
-- ul_session_map; the output of the threads, and the text of numbers and addresses in that of
-- print_event; signals; the ioctls that read the CU's own addresses; how tshark takes messages apart.
-- artifact/stage_3: its kernel program is the file of stage 4, and main, the ARP probe and the output
-- of its userspace program have the text of stage 4. main of the first parser's userspace program has
-- the text of the PDU extender's. The copies of programs with explanations.
pub mod Base
pub mod Packet
pub mod Session
pub mod Event
pub mod Parse
pub mod Xdp
pub mod Rewrite
pub mod Downlink
pub mod Uplink
pub mod Program
pub mod Overlap
pub mod Switch
pub mod Learner
pub mod Watcher
pub mod Race
pub mod Report
pub mod Arp
pub mod System
pub mod Startup
pub mod PlaneCount
pub mod PduExtender
pub mod FirstParser
pub mod Stage1
pub mod Stage2
pub mod Stage3
pub mod PktCount
pub mod Tests
