-- ===== src/Lib.antt =====
-- A verification library of tju_tcp, a reliable byte-stream protocol in user space over UDP (src/*.c
-- and inc/*.h). The model is a shallow embedding: C functions are functions on records, and a pointer
-- to bytes is a function from offsets to bytes.
--
-- Parts of the program, and where they are modelled:
--   Global      inc/global.h: constants, states, the windows and the socket `tju_tcp_t`. The fields of
--               the socket stand in `Sender` and `Receiver` by the part that uses them.
--   Packet      src/tju_packet.c: the header on the wire (`header_in_char`, `create_packet_buf`, getters).
--   Kernel      src/kernel.c: `sendToLayer3`, `receive_thread`, `onTCPPocket`, `cal_hash`;
--               Kernel.Start has `startSimulation`.
--   Log         src/log.c and the macros of inc/log.h: the event log of a host; Log.Emits has the lines that
--               the threads and the handler of an established connection write, Log.Run what they tell.
--   Receive     the data branch of `tju_handle_packet`, `get_wnd_free_len` and `tju_recv`, src/tju_tcp.c.
--   Send        `sending_thread` of src/timer.c and `tju_send` of src/tju_tcp.c.
--   Retransmit  `retrans_thread` of src/timer.c.
--   Ack         the ACK branch of `tju_handle_packet`: sliding, congestion control, fast retransmit.
--   Timer       `startTimer`, `stopTimer`, `timeout_handler`, `CalTimeout` of src/timer.c.
--   Syn         src/syn.c: the queues of half-open connections and of those to be accepted.
--   Handle      `tju_handle_packet` for a socket that does not listen: the states of a connection.
--   Connection  `tju_socket`, `tju_bind`, `tju_listen`, `tju_accept`, `tju_connect`, the LISTEN branch;
--               Connection.Close has `tju_close`.
--   Aliasing    the receiving fields of the sockets behind their pointers, and the `memcpy` of LISTEN.
--   Transfer    one direction of a connection and the network as one system, whose steps are the functions
--               of the other modules.
--   Duplex      both directions at once: two hosts, whose packets all go through `tju_handle_packet`.
--               Duplex.Pipes is what a connection promises its applications, a queue of bytes each way.
--   Session     the handshake of Connection followed by the exchange of Duplex; Session.Dispatch and
--               Session.Arrivals lead packets from `onTCPPocket` to their socket.
--   Races       reads and writes of the window outside the locks, between the threads and the handler.
--   Common      what all share: Boolean tests, machine words, bytes in memory, `int`.
--   Samples     sockets and packets for the tests; each part has its tests in a module Tests.
--
-- How they interact: the application calls `tju_send`, which fills the sending buffer;
-- `sending_thread` and `retrans_thread` make packets of it and hand them to `sendToLayer3`; the other
-- host's `receive_thread` gives them to `onTCPPocket`, which finds the socket in its tables, and that
-- socket's `tju_handle_packet` files the data for `tju_recv` and answers with an ACK, which comes back
-- the same way and moves the sender's window.
--
-- Conventions. Numbers are natural numbers, and the wrap-around of an unsigned type is written out
-- (`u16`, `u32`, `u64`). An access outside a buffer makes the operation give `none`; but
-- `listen_socks` and `established_socks` are functions on integers, in which `tju_listen` writes a
-- cell for a negative index too. What fresh memory holds, the clock, and the answers of the operating
-- system are arguments. A blocking call is cut where it waits. A function that runs under a lock, and
-- each handler, is one step.
--
-- Fuel. `send_loop` and `resend_loop` have the bytes to send and one as fuel: a packet has a byte at
-- least. The scan of `get_wnd_free_len` stops at the end of the window. `receive_thread` is run for a
-- number of rounds.
--
-- The steps of the systems (Transfer, Duplex, Session, Races) are the calls of `tju_send` that find
-- room for all their bytes in the sending buffer, rounds of the threads, signals of a timer that is
-- armed, arrivals of packets and calls of `tju_recv`. A call of `tju_send` with more bytes than there
-- is room for repeats some of them, as Send.Buffer shows, and is no step. A signal loads the timer
-- again from its `it_interval`, or disarms it.
--
-- A number is printed with its value and one as fuel.
--
-- A way on (Duplex.Ways, Duplex.Complete) is a choice of steps: it says that a state from which data
-- is delivered can be reached, not that the scheduler takes it. `opens_within` has as fuel the
-- duplicate ACKs that may come before a congestion window of 0 opens.
--
-- Not modelled: the line of `_RTTS_LOG_`, which prints `float`s, and the lines that the handshake and
-- closing log; src/client.c and src/server.c (examples); the tests; `free`; the options of the UDP
-- socket. Inside a critical section or a handler other threads are not seen, but for the reads and
-- writes that Races cuts apart. In Connection the copy of a listening socket has buffers of its own;
-- Aliasing has the sharing, for the receiving fields. `setitimer`, `recvfrom`, `sendto`, `socket`,
-- `bind` and `pthread_create` are as POSIX documents them, and `fprintf` as the C standard does.
pub mod Common
pub mod Global
pub mod Packet
pub mod Kernel
pub mod Log
pub mod Receive
pub mod Timer
pub mod Send
pub mod Retransmit
pub mod Ack
pub mod Syn
pub mod Handle
pub mod Connection
pub mod Aliasing
pub mod Transfer
pub mod Duplex
pub mod Session
pub mod Races
pub mod Samples
