-- ===== src/Lib.antt =====
-- The Windows paravirtual drivers for Xen: what the bus driver xenpci and the front ends compute.
--
-- xenpci is the bus driver. It owns the shared info page, the grant table (xenpci/gnttbl.c), the
-- event channels (xenpci/evtchn.c) and the connection to xenstore (xenpci/xenbus.c). The front ends
-- for disks (xenvbd_*) and networks (xennet) share pages with a backend by grants, signal it by event
-- channels and find it by xenstore.
--
-- Files:
-- - Base, with Base/*: shared types, Boolean tests, lists and tables over native numbers, the scan
--   for the lowest set bit, and XN_ASSERT as an Option.
-- - Grant: xenpci/gnttbl.c in the checked build, where each reference carries a tag. Grant/Defs has
--   the fields of XENPCI_DEVICE_DATA that it works on and `StackApi`, what it relies on of the
--   lock-free stack of liblfds.6. A step is a function from state to state: put_ref, get_ref,
--   grant_access, end_access, map_table, init, suspend and resume are GntTbl_PutRef and so on.
--   `none` is a failed XN_ASSERT. end_access takes fuel and the list of values that the hypervisor
--   stores in the flags word before each compare-and-exchange; a round for each of them and one more
--   is enough. Grant/Refs has the free list, Grant/Access grants and their end, Grant/Hibernate,
--   Grant/Suspend and Grant/Resume the two free lists, Grant/Setup the start.
-- - Evtchn: xenpci/evtchn.c on amd64 (64 words of 64 bits, 4096 ports). Evtchn/Defs has the state: the
--   table of handlers, the words of the shared info page as bits, and a log of the calls made of the
--   kernel, the hypervisor and the handlers. isr is EvtChn_EvtInterruptIsr; its two loops take fuel 65,
--   one more than the bits of a word. `none` is fuel that ran out or an undefined shift. Evtchn/Scan,
--   Served, Words, Isr and Lost are about the service routine, Evtchn/Handlers about registration and
--   Evtchn/Setup about start, suspend and resume.
-- - Xenbus: the rings of xenpci/xenbus.c, of 1024 bytes each, with 32-bit indices. xb_write is the
--   function of that name, its loop with a fuel of one more than the bytes to write; send_request and
--   take_reply are xenbus_format_msg_reply before and after its wait. dpc is XenBus_Dpc: its argument
--   lists what each round reads in rsp_prod and whether it gets a work item; dpc_round is one round. A
--   message under way is the bytes copied so far, so that xb_msg_offset is their number. Xenbus/Bytes
--   has the rings byte by byte, Xenbus/Send requests, Xenbus/Stream the bytes not yet delivered,
--   Xenbus/Rounds a round and Xenbus/Delivery the loop.
-- - Watch: the watch table and the reading of replies in xenpci/xenbus.c: errmsg, end_transaction,
--   list_names, add_watch, rem_watch and watch_fired are errmsg, XenBus_EndTransaction, XenBus_List,
--   XenBus_AddWatch, XenBus_RemWatch and XenBus_WatchWorkItemProc; suspend, resume and halt are
--   XenBus_Suspend, XenBus_Resume and XenBus_Halt. Watch/Names is about XenBus_List, Watch/Table,
--   Watch/Moves and Watch/Halt about the table.
-- - Store: the requests of xenpci/xenbus.c and the reading of their replies: send_read and read_result
--   are XenBus_Read before and after its wait, and likewise send_write, send_list, send_start, send_end,
--   send_add_watch and send_rem_watch; watch_item is XenBus_WatchWorkItemProc on the body of an event.
--   Store/Decimal has numbers as text, Store/Token the way from a token back to its watch.
-- - IpSum: XenNet_SumIpHeader and XenNet_CheckIpHeaderSum of xennet/xennet_common.c on a header as its
--   bytes by offset. The loop that adds carries has fuel 3, which is enough for a 32-bit sum. IpSum/Fold
--   has the carries and IpSum/RoundTrip the two functions together.
-- - Net: the headers of packets in xennet/xennet_common.c. Net has the moving fields of packet_info_t
--   as a cursor over the buffers of a packet, Net/Header XenNet_BuildHeader, whose loop has fuel one
--   more than the buffers and so always ends, Net/Parse XenNet_ParsePacketHeader and Net/Filter
--   XenNet_FilterAcceptPacket with its theorem. Net/Gather, Net/Loop and Net/Built have the proofs about
--   the header, Net/Fields and Net/Short those about the parser. Net/Mac is the loop
--   of XenNet_Connect that reads the MAC address, and Net/MacText its theorem.
-- - Tx: transmission in xennet/xennet_tx.c, in the build for NDIS 6. Tx has the transmit fields of struct
--   xennet_info, the free list of ids, XenNet_PutCbOnRing, XenNet_TxInit, the responses that
--   XenNet_TxBufferGC collects, and the lists of packets that XenNet_SendNetBufferLists queues and
--   XenNet_TxShutdown drops. Tx/Free and Tx/Setup are about the ids and the slots of the ring,
--   Tx/Responses and Tx/Round about the responses, Tx/Lists and Tx/Queueing about the lists of packets.
--   Of XenNet_HWSendPacket, Tx/PseudoHeader is the checksum for large sends, Tx/Frags the walk over the
--   fragments behind the first page, with the loop that counts them and the loop that puts them on the
--   ring without coalescing, each with fuel for every byte and every buffer, and Tx/Room the requests up
--   to the end of the function; Tx/Eaten and Tx/Walk have the proofs about the walk, Tx/Pages and Tx/Ring
--   those about what is on the ring.
-- - Vbd: the block miniport, xenvbd_common/common_miniport.h, outside dump mode. Vbd/Defs has the fields
--   of XENVBD_DEVICE_DATA, an SRB with its list entry, and what a call is given by the kernel. Vbd/Cdb
--   has the decode_cdb functions, Vbd/Segments the loop that cuts a buffer into segments, and Vbd the rest
--   of XenVbd_PutSrbOnRing as put_srb_on_ring, where get_shadow and put_shadow are the free list of
--   shadows. `none` is a failed XN_ASSERT. Vbd/Placing and Vbd/Submit are about put_srb_on_ring, Vbd/Pool
--   about the free list of shadows as a list of free shadows.
-- - Vbd/Reply: handle_response is the body of the loop over responses in XenVbd_HandleEvent,
--   handle_responses that loop, make_sense and make_auto_sense are XenVbd_MakeSense and
--   XenVbd_MakeAutoSense, and reset_bus is XenVbd_ResetBus. Vbd/Reply/Frame, Steps, Answer and Drain are
--   about responses, Scan, Reset, Emptied and Late about resets.
-- - Vbd/Command and Vbd/Queue: XenVbd_ProcessSrbList. Vbd/Command has the switch on the operation code and
--   the answers with their bytes, Vbd/Queue the ends of a command (finish_error, finish_success), the
--   switch on the function of an SRB (run_srb) and the loop (process_srb_list), with fuel for one round more
--   than there are SRBs queued and shadows free. Command/Capacity is about what an initiator reads,
--   Queue/Moves and Queue/Ends about the loop, Queue/Finish about the end of a command.
-- - Grant/Tests, Evtchn/Tests, Xenbus/Tests, Watch/Tests, Store/Tests, IpSum/Tests, Net/Tests, Tx/Tests, Vbd/Tests,
--   Vbd/Reply/Tests and Vbd/Queue/Tests run the definitions on concrete states.
--
-- Not modelled: the hypervisor and the kernel, whose calls are entries of a log or arguments; log
-- messages, memory barriers and spin locks, since each operation is one step; liblfds.6 and the
-- headers of Xen under common/include/public, which are other projects' code; of xenpci/xenbus.c the
-- set-up in XenBus_Init and XenBus_Connect; of the block miniport dump mode, the standard inquiry data and
-- mode pages, which stand on structures of the Windows headers and are arguments, the outer loop of
-- XenVbd_HandleEvent, and the connection to the backend; of the network driver the coalescing of
-- fragments, the flags of the requests and the order of the calls in XenNet_HWSendPacket, reception and
-- the adapter; the other drivers and programs.
pub mod Base
pub mod Grant
pub mod Evtchn
pub mod Xenbus
pub mod Watch
pub mod Store
pub mod IpSum
pub mod Net
pub mod Tx
pub mod Vbd
