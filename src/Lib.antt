-- ===== src/Lib.antt =====
-- etwork: a library for messages between peers over sockets, and its marshalling of data structures.
--
-- A Buffer (src/lib/buffer.cpp) turns messages into bytes for the wire and bytes from the wire into
-- messages; a socket has one for each direction. A Block (src/lib/block.cpp) is a stretch of memory
-- with a position. The marshallers (src/lib/marshal.cpp, src/etwork/marshal.h) write values to a Block
-- and read them back: those of the basic types, TypeMarshal for structures, and the manager that
-- finds them by name. Errors (src/lib/errors.cpp, src/etwork/errors.h) are told to whoever asked. The
-- SocketManager (src/lib/socketbase.cpp, src/lib/sockimpl.h) has the sockets: a map of those that were
-- accepted, one by address, and a queue of those that wait; its poll serves those that are ready. The
-- chat host (src/chatserver/chathost.cpp) is a client of all that: it polls the manager, reads and writes
-- messages on its sockets, and knows its clients by name.
--
-- Files, with the code that each models:
--   Common: the shared names; Tests (Boolean tests on numbers), Lists (length, take, drop, memcpy),
--     Bytes (size_t arithmetic modulo 2^32, fresh memory), Int (the 32-bit int), Map (std::map with
--     its comparison).
--   Buffer: class Impl of buffer.cpp. Buffer/PutData is put_data, with its goto as a loop and each
--     step of the body a function; Buffer/GetData is get_data; Buffer itself has put_message,
--     get_message and new_message. Buffer/Run is the outcome of such a loop, where an assertion can
--     fail in a debug build. Frames, Wire, Pieces, Split and Skipping are about the bytes on the wire;
--     Invariant is about well-formedness; Mailbox is the specification, a queue with limits; Filling
--     and Receive are about arbitrary input.
--   Block: class Block. Block/Stream is about reading what was written.
--   Marshal: Int, Uint, Uint64 (double too), Bool and Text are the marshallers of the basic types, with
--     Digits, Cursor and Word for the loops and the access to a Block that they share. Interface is
--     class IMarshaller as a record of its virtual functions, over a memory of values; Leaves are the
--     basic marshallers behind that interface; Members is TypeMarshal; Ops is MarshalOp; PublicVector
--     is the vector of the header; Manager is TypeMarshal::resolve and MarshalManager,
--     Manager/Typed the templates marshal and demarshal.
--   Errors: EtworkError and its texts; Wsa is the table of WinSock's errors; Notify is who is told of
--     an error; SystemText is get_error_string.
--   Sockets: what CreateEtwork accepts, and class Socket of src/lib/sockimpl.h with do_read and do_write;
--     what recv and send come to is a parameter of the step. Sockets/Stream is about the bytes sent,
--     Sockets/Drain about calls of do_write one after the other.
--     Sockets/Manager is class SocketManager: its state, closing and making sockets, the ids and the sets;
--     Manager/Connecting is open, accept and connect, Manager/Datagrams the handlers of the listening
--     socket, Manager/Service the three loops of poll with the steps of a socket, Manager/Polling is poll.
--     A socket is an index into a heap that is part of the state, so that the maps and the queue share
--     sockets as the pointers do. Manager/View is what maps, queue and sockets must agree on, Manager/Core
--     what each operation does to that, Manager/Reach the states that are reached, Manager/Safety and
--     Manager/Ids what follows for accept, for closed sockets and for the ids; Manager/Room is about what
--     poll puts out, Manager/Sending about the loops of handle_listening_write.
--   Chat: chathost.cpp and chathost.h. Chat/Commands is what a message does to a client in either state
--     and the loop over its messages, Chat/Polling the host's poll. Reading, Names, Arrays, Leaving
--     and Relogin are about that loop, the names and texts, the arrays through a poll, the clients that
--     leave and a second login.
--
-- Numbers are those of the platform: int, unsigned int and size_t have 32 bits, and a difference of ints
-- that overflows (Marshal/Int) wraps, which C++ leaves undefined. The loops of put_data and
-- get_data run on fuel from the length of the input and of the queue: a round of put_data takes a byte at
-- least, one of get_data a message or a byte of the room. The manager's resolution runs on fuel above
-- the number of marshallers that are left. socket_id runs on two rounds more than there are sockets, the
-- loop of handle_listening_write on the number of messages that wait, and the chat host's on one round more
-- than that; poll runs on the rounds that the clock and WinSock bring. The loops that count the bytes of
-- a range are bounded by their tests.
-- Memory that is freed is not modelled; an erased iterator that is used is an outcome of its own (bad_access
-- of Buffer/Run, undefined of Chat/Polling). A release build has no assertions; Buffer has a flag for it, and
-- marshal.cpp is modelled without.
--
-- Parameters stand for what is not in the repository: the bytes that an allocator leaves in fresh memory,
-- the names that typeid gives and the size of std::string (Marshal/Ops), the constructor of a marshalled
-- type, the text that FormatMessage writes, FD_SET and FD_SETSIZE, and what each call of WinSock came to.
-- Of the handles that WinSock gives, steps to a reached state assume that they are not in use; of the ids
-- of unreliable sockets, that they have not come round at 2^32. Times are counted in whole ticks.
--
-- Not modelled: FloatMarshaller, which computes with floats; the window procedures of the chat programs
-- (src/chatserver/chatserver.cpp, src/chatclient), the tester (src/tester), the timer and the lock, which are
-- input and output and the calls of the system; the messages to the debugger. A double is its bit pattern.
pub mod Common
pub mod Buffer
pub mod Block
pub mod Marshal
pub mod Errors
pub mod Sockets
pub mod Chat
