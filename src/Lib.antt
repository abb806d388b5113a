-- ===== src/Lib.antt =====
-- COSMID: the instrument drivers of the monarch/cosmid flight software.
--
-- The drivers sit between an instrument and tm_ip_export, which stores and forwards telemetry. Each
-- reads a byte stream or datagrams from its instrument, checks and logs them, and writes serial
-- packets with a header to tm_ip_export, under the flow control of acknowledgements.
--
--  * Xiomas (Xiomas/) is an infrared scanner. Its packets start with a header of 16 bytes
--    (XioHarvGatewayPacket.h and .cpp): xiomas_tcp_rcvr::protocol_input (xiomas_export.cc) finds the
--    packets in the image stream, logs them, and passes their bytes to
--    xiomas_tcp_export::forward_packet, which puts them behind a serial header in a circular queue
--    and writes out what flow control allows. xiomas_udp_rcvr takes the scanner's status datagrams and
--    answers its requests to send.
--  * Nephex (Nephex/) is a nephelometer. nephex_tcp_rcvr::protocol_input (nephex_export.cc) finds the
--    packets in its stream and logs them; class APid holds a table of the packets' application IDs
--    and decides which of them are forwarded by nephex_tcp_export.
--  * POPS (POPS/, BBB/srvr/) is a particle spectrometer. UserPkts_UDP::protocol_input (POPS.cc) scans
--    its text packets into the telemetry structure. POPS_Cmd and POPS_client (POPS.cc) pass commands on
--    to pops_socket (POPS_srvr.cc), which runs beside the instrument, starts and stops its software and
--    its host, and replies with its status.
--
-- The files:
--
--  * Base, with Base/Tests, Base/Arrays, Base/Slices, Base/Words and Base/Bits: shared names, Boolean
--    tests on ℕ, lists read and written as C arrays, and machine words (`u8`, `u16`, `u32`, `add32` are the
--    wrap-around of the C types). A number is a native ℕ. A list access out of range is `none`.
--  * Base/Int: integers over the native ℕ, for subtractions that may be negative and results of type
--    `int`.
--  * Dasio, Serio: what the drivers use of the library of the framework, which is not in this
--    repository: its input buffer, its scanner (`not_found`, `consume`, `report_ok`), its serial
--    packet layout and its CRC are fields of records, and every definition that uses them takes such
--    a record. `sizeof (serio_pkt_hdr)` is the hypothesis `HasHeaderSize`. Serio also models the
--    loop that computes the check byte of a header, which all the drivers repeat. Dasio/Scan has the
--    text scanners (not_str, not_uint8 and so on) as functions that may fail, composed by do blocks;
--    Dasio/Reads and Dasio/Decimal state what is documented of them. Dasio/Sample is a library for
--    the tests.
--  * Xiomas/Packet, Packet/Pid, Packet/Src, Packet/Flag: XioHarvGatewayPacket.h and .cpp, one
--    function per xhg function (`validate_header` is xhgValidateHeader). A field of several bytes is
--    the record `Bytes4` of its bytes, as in memory. Packet/Values, Packet/Lrc,
--    Packet/Validate and Packet/Fill prove about it.
--  * Xiomas/Circ: the circular buffer of xiomas_tcp_export (circ_length, circ_space, circ_commit,
--    circ_head_bytes, circ_consume, circ_transmit), the memory as a list. memcpy out of bounds and
--    the assertions are `none`. `transmit_loop` has fuel, the number of bytes to write, since each
--    turn writes at least one. Circ/Inv, Circ/Commit, Circ/Wrap and Circ/Transmit prove about it.
--  * Xiomas/Export: process_queue, forward_packet, the acknowledgement case of app_input, and
--    request_ack. What is written to the socket is a list of spans; whether the output buffer is
--    empty is a function of what was written, a parameter. `process_loop` has fuel, one more than the
--    bytes queued. Export/Drain, Export/Forward and Export/Clients prove about it.
--    Export/Input is app_input, over not_serio_pkt and the payload of control packets as in
--    Serio/Control, which also says what a sequence of acknowledgements is, on fuel nc + 1. Export/Input/Handles and
--    Export/Input/Acks prove about it.
--  * Xiomas/Receiver, Receiver/Fields: protocol_input with one function per state of its switch and
--    `pass` for one turn of its loop, on fuel 2 * nc + 2. Its messages, its log and its writes are
--    the list of `Output`. Receiver/Transfer, Receiver/Stall, Receiver/Stream, Receiver/Opening,
--    Receiver/Packets, Receiver/Settled, Receiver/Kept, Receiver/Passes and Receiver/Calls prove about
--    it. Receiver/Timeout is the constructor and protocol_timeout.
--  * Xiomas/System: the TCP side as a whole. A `Gateway` is the export client and the receivers of the
--    connections that xiomas_tcp_svc::new_client has accepted, all of which point to that client; an
--    `Event` is a call by the event loop, with the input buffer as the library presents it, and `run`
--    is any sequence of them. The pointer to the client, which the constructor of the export leaves unwritten,
--    is a parameter of `start`. Receivers are numbered as they are accepted. `reset` is the library's, and
--    a connection that it ends is the event `closes`; the flags that protocol_timeout leaves do not
--    keep an event from coming. System/Members, System/Sound, System/Runs, System/Rounds and
--    System/Cycle prove about it.
--  * Xiomas/Udp: xiomas_udp_rcvr::protocol_input and sendFlag, CTS and send of xiomas_udp_txmtr,
--    forward_packet and app_input of xiomas_udp_export, in one state. The state of the socket and of
--    the output buffers is the library's. `packets_dropped` is an `int`, kept as its 32 bits.
--    Udp/Outputs, Udp/Flow, Udp/Input and Udp/Wait prove about it. Udp/Runs has its construction and
--    any sequence of datagrams and acknowledgements.
--  * Nephex/Apid: class APid, the table as a list of entries; the calls of the constructor are the
--    list `known`. Apid/Decimation and Apid/Reports prove about it.
--  * Nephex/Export: forward_packet and the acknowledgement case of app_input. Export/Input is the loop
--    of app_input, as that of Xiomas/Export/Input; Export/Input/Credits proves about it.
--  * Nephex/Receiver: protocol_input, one function per part of its loop, on fuel nc + 1, since every
--    turn moves cp on. Receiver/Logs, Receiver/Frames, Receiver/Turns, Receiver/Calls,
--    Receiver/Sent and Receiver/Sends prove about it.
--  * Nephex/System: the receiver and the export client together, as Xiomas/System for the scanner, with
--    connected, the timer, and the messages of protocol_timeout and process_eof, which end in `reset` of
--    the library. The input buffer has the 50000 bytes that the code asks for (RCVR_BUFSIZE).
--    System/Runs proves about it.
--  * Nephex/Emulator: of nephex_emulator.cc, set_client, reset_client, connected (with the deletion of
--    a connection that is refused) and the time base in protocol_input. Emulator/Clients and
--    Emulator/Pace prove about it. Emulator/Runs has the constructor and any sequence of connections,
--    with the memory of the client as a parameter. Emulator/Play is the loop of protocol_input and
--    forward_packet, on fuel nc + 1; whether the timer has expired is a function of what was done.
--    Play/Times, Play/Paced and Play/Stops prove about it, and Play/Relay about the emulator and the
--    receiver together.
--  * Pops/Server: protocol_input and send_status of pops_socket, with one function for a turn of the
--    loop, on fuel nc + 1. What it runs and writes is a list of `Effect`. Pops/Server/Commands and
--    Pops/Server/Loop prove about it.
--  * Pops/Fields, Pops/Packet: protocol_input of UserPkts_UDP. The 48 variables behind TimeSSM are
--    named by the type `Name`, and the packet is scanned over the list of their names. `float` and
--    `double` are one type of which nothing is known; mktime and the arithmetic are the record `Clock`.
--    Packet/Store, Packet/Columns and Packet/RoundTrip prove about it.
--  * Pops/Client: POPS_client (forward, app_connected, app_input, protocol_timeout, app_process_eof,
--    tm_sync) and POPS_Cmd::app_input, which is `pops_cmd`. app_input is on fuel nc + 1, since every line
--    moves cp on. Client/Ticks, Client/Lines, Client/Status and Client/Command prove about it.
--    Client/Runs has the construction and any sequence of calls, and Client/Silence proves about them.
--  * Pops/Session: the driver and the server together, over Server/Orders. Pops/Sample has the scanners
--    of the tests.
--
-- Not modelled: the main programs, the sockets, the files and the event loop of the framework, which
-- runs the timers, and what its `reset` does to a connection; the vendor's types in Xiomas/gtorsys.h and
-- the older copy in Xiomas/save; the code of POPS/POPS.cc that is not built (Shutdown_UDP,
-- send_shutdown); the telemetry definitions (TM, *.tmc, *.agm), the MATLAB scripts and the installation
-- scripts.
pub mod Base
pub mod Dasio
pub mod Serio
pub mod Xiomas
pub mod Nephex
pub mod Pops
