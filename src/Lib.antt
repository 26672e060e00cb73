-- ===== src/Lib.antt =====
-- imconee, a proxy that accepts SOCKS and shadowsocks connections and passes them on through chains
-- of proxies.
--
-- The parts modelled, with the source files below source/imconee/:
--   CircularBuffer   tools::circular_buffer of tools.h, the receive buffer of a TCP pipe. A record
--                    of the array and the two indices; the array's size is a parameter. `receive` is
--                    one round of tcp_pipe::rcv_all of netkit.cpp.
--   ChunkBuffer      tools::chunk_buffer of tools.h, the send buffer of a TCP pipe and the buffer of
--                    decrypted bytes. The chain of chunks is a list of arrays, the pointer to the
--                    last chunk is its position; the size of a chunk is a parameter.
--   Net              netkit.h and netkit.cpp: Order is the byte order, Address is ipap, its text and the
--                    choice of an address in dnsresolve, Endpoint is endpoint, Packet is pgen, and Session
--                    is a pipe as a handshake uses it: the bytes that the peer sends, those sent to
--                    it, and which sends fail. A handshake is a function of the pipe that may stop.
--   TcpPipe          tcp_pipe::send of netkit.cpp over a chunk buffer; what the socket takes is a
--                    parameter. Receive is tcp_pipe::recv with rcv_all over a circular buffer; what the
--                    socket delivers is a parameter.
--   Socks            Server is handler_socks of handlers.cpp, Client is proxy_socks4 and
--                    proxy_socks5 of proxy.cpp.
--   Shadow           proxy_shadowsocks::prepare of proxy_ss.cpp and handler_ss::worker of
--                    handler_ss.cpp, behind the cipher.
--   Chain            conn::connect of connect.cpp and handler::connect of handlers.cpp: a connection
--                    through a chain of proxies.
--   Cipher           ss::keyed_filter, ss::cipher_enc, ss::cipher_dec, ss::core::skip_buf and
--                    ss::core::aead_cryptor of cipher_ss.h and cipher_ss.cpp: Nonce, Filter, SkipBuf,
--                    Encipher and Decipher are the code, Mode is what it uses of the cryptographic
--                    library, Frames is the abstract stream of sealed chunks, and Stream is what
--                    decipher makes of it, piece by piece.
--   CryptoPipe       ss::core::crypto_pipe of cipher_ss.h and cipher_ss.cpp: a pipe that sends its salt
--                    and then the stream of Cipher over the pipe below, and receives the like. Busy is
--                    its counter of the calls in progress.
--   Bridge           handler::bridged and handler::processing_thread of handlers.h and handlers.cpp:
--                    what one pipe of a bridge receives is sent over the other. Tick and Slots are the
--                    bridges of a thread, and Waiter is pipe_waiter as Linux has it; the pipes of a
--                    bridge and what the system says of them are parameters.
--   Arena            the allocator of mem.cpp: the free list of an arena in Arena itself, a program that
--                    uses it in Run, ma, mf and rs in Levels, and threads at once in Race. The C
--                    library is a parameter.
--   Pointer          ptr::shared_ptr and ptr::shared_object of tools.h: the objects are numbered, 0 is
--                    null, and a program is any sequence of the calls on pointers that are numbered too.
--   Settings         the settings tree of sts.h and sts.cpp: the tokenizer with the blanks of
--                    str_helpers.h in Text, the tree in Tree, read_sts and load in Read, and the
--                    writing of a value in Store. A pointer into a text is the text behind it.
--   Engine           the start of the program: loader.cpp, listener::build of listener.cpp and the
--                    constructor of engine.cpp. What builds proxies and handlers, and the conversion
--                    of a value to a number, are parameters. Acceptor is the thread of a tcp_listener
--                    with open and stop, one access to the shared state a step, and Program all
--                    listeners with engine::numlisteners, which they share; any calls of open and
--                    stop of different listeners may overlap there.
--   Lock             the read-write lock of spinlock.h. A word is written as its three fields,
--                    and what is added to it is added to its 64 bits, so that a full field runs
--                    over; Word is about that. System is any number of threads that call its
--                    functions, one access to the word a step.
--
-- A pipe receives into a circular buffer; a cryptor takes what is received, appends it to its
-- skip_buf, and puts the plain bytes of whole chunks into a chunk buffer.
--
-- Bytes are native numbers and memory is a list of them. Each loop either is structural or takes
-- fuel: append takes a round for each byte and one more, since every round but the first stores a
-- byte; peek a round for each chunk, since a round ends the loop or drops a chunk; encipher and
-- write a round for each byte, and decipher a round for each byte in view and one more, since every
-- round takes bytes; rcv_all a round for each byte of the buffer and one more, since a round that
-- goes on stores a byte; tcp_pipe::recv for an exact number as many tries as bytes are asked for and
-- one more, if each brings a byte; the loop of crypto_pipe::recv a round for each delivery of the
-- pipe below; the user id of SOCKS4 is read in at most 257 rounds, since it is then too long; load
-- of a settings text takes a round for each byte and one more, since read_sts goes on only when it
-- has taken a byte.
--
-- Not modelled: the cryptographic library, which Cipher/Mode stands for (a cipher mode that may be
-- fed block by block, and for the stream a pair of modes that undo each other), the derivation of
-- keys, sockets and names, which are parameters, logging and the system service. The waiter for
-- Windows, the list of the bridging threads, the other locks, the containers, weak pointers, the
-- loop of the program, the printing of IPv6 addresses, the layout of a stored configuration and the
-- numbers in it are left out as well.
pub mod Common
pub mod Arena
pub mod Pointer
pub mod Settings
pub mod CircularBuffer
pub mod ChunkBuffer
pub mod Net
pub mod Cipher
pub mod Socks
pub mod Shadow
pub mod TcpPipe
pub mod Chain
pub mod Engine
pub mod Lock
pub mod CryptoPipe
pub mod Bridge
