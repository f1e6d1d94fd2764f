-- ===== src/Lib.antt =====
-- The libraries of trunk: what its data structures and streams promise.
--
-- Program: util/ holds containers and codecs, io/ files and the readers and writers over them. A
-- reader or writer knows a file only by its interface (io/file.h), so its model takes any file; a
-- memory file is one that the development builds. net/ runs on the loop of Boost.Asio; a timer list
-- keeps its own state between the callbacks of that loop, and so do the client of net/icmp-client.h,
-- the connections of net/http/, and the client and the server of net/rpc/, which meet only in the
-- datagrams. These are enciphered under the keys of security/. db/
-- keeps a sorted table in a file.
--
--   Prelude         names of the standard library, Boolean tests, lists over native numbers, bits,
--                   error results (std::error_code is Prelude/Result)
--   Util/Varint     util/varint.h: append_varint, parse_varint
--   Util/Rope       util/rope.h, util/rope.cc: insert, erase, copy (class Rope), and the private
--                   functions on a tree: insert_rep, erase_rep, copy_rep, merge, balance_left,
--                   balance_right, rotate_left, rotate_right. The body of a recursive function is
--                   split at its tests: place and fill are insert at one node, erase_rest and
--                   copy_rest what follows the left child. Util/Rope/Content says what text a tree
--                   stands for and when it is well formed
--   Util/Utf        util/utf.h, util/utf.cc: utf16_to_utf8_size, utf16_to_utf8, utf8_length,
--                   utf8_to_utf16
--   Util/Strings    util/strings.h, util/strings.cc: consume_int, for any type of integers
--   Util/FibonacciSequence  util/fibonacci-sequence.h: reset, next
--   Io/MemoryFile   io/memory-file.h, io/memory-file.cc: the content and the position, one function
--                   for each method
--   Io/File         io/file.h: the interface, and what the loops over a file rely on (Source, Sink)
--   Io/FileUtils    io/file-utils.h, io/file-utils.cc: read, write, read_to_end
--   Io/LineReader   io/line-reader.h, io/line-reader.cc: the reader with its reused buffer
--   Net/TimerList   net/timer-list.h: schedule, update, cancel, wait and the handler that it arms
--                   (class BasicTimerList). Net/TimerList/Steps is the state machine of calls, ticks
--                   of the clock and runs of the handler
--   Util/HashFilter  util/hash-filter.h, util/hash-filter.cc: insert, test, clear, add, find_two; the
--                   loops of insert are kick and kick_again
--   Db/SsTable/Builder  db/sstable.h, db/sstable.cc: add, finish and flush (class SSTableBuilder)
--   Db/SsTable/Reader  db/sstable.h, db/sstable.cc: init (class SSTable)
--   Db/SsTable/Iterator  db/sstable.h, db/sstable.cc: start, seek, next, key, value, read (class
--                   Iterator), and lookup of the table
--   Security/Key    security/key.h, security/key.cc: fingerprint, encrypt, decrypt; the cipher is a
--                   parameter (Cipher)
--   Security/Keystore  security/keystore.h, security/keystore.cc: add, find
--   Net/IpEncoding  net/ip-encoding.h, net/ip-encoding.cc: encode, decode; the addresses of
--                   Boost.Asio are a parameter (Addresses)
--   Net/Rpc/Wire    net/rpc/wire-structs.h: the headers, and the nonce
--   Net/Rpc/Fragments, Net/Rpc/Assembly  how net/rpc/client.cc and net/rpc/server.cc cut a message,
--                   in the constructor of the client's operation and in pack of the server's, and
--                   put it together again, in unpack; the interval set is a parameter (IntervalSet)
--   Net/Rpc/OperationKey  net/rpc/operation-key.h: the key, and the map of operations
--   Net/Rpc/Client  net/rpc/client.h, net/rpc/client.cc: request, receive, dispatch, and of an
--                   operation send, unpack, abort and the destructor
--   Net/Rpc/Server  net/rpc/server.h, net/rpc/server.cc: handle, add_key, receive, dispatch, and of
--                   an operation unpack, handle, pack, respond and the destructor
--   Net/Types       net/types/: to_string and from_string of host.cc (Host), addr-port.cc (AddrPort) and
--                   host-port.cc (HostPort); the addresses of Boost.Asio and the number of absl::StrCat
--                   are a parameter (Texts)
--   Net/IcmpClient  net/icmp-client.h, net/icmp-client.cc: compute_checksum, request, receive and its
--                   handler, and of an operation start, finish and the destructor.
--                   Net/IcmpClient/Steps is the state machine
--   Net/Http/Client  net/http/client.h, net/http/client.cc: request (class Client), and of a connection
--                   resolve, write, close, finish and the handlers of its calls.
--                   Net/Http/Client/Steps is the state machine of requests, ends of calls and the timer
--   Net/Http/Server  net/http/server.h, net/http/server.cc: a connection (class Server::Connection), with
--                   read, handle, write, close and the handlers of its calls
--   Net/Rpc/RoundTrip  the client and the server together
--
-- State is passed explicitly: a method takes the object and returns it changed. A function that
-- fills a buffer returns the bytes; an error is a value of Result. `none` stands for fuel that ran
-- out, or in Rope, FibonacciSequence, Db/SsTable, Net/Http, Net/IcmpClient and Net/Rpc/Client for what
-- C++ leaves undefined, as the definition says.
--
-- Fuel: a varint of 64 bits has ten groups at most. A call of Rope's insert goes down one level of
-- the tree or starts again with fewer bytes, so the nodes and bytes bound its depth. A round of a
-- loop over a file takes a byte at least, so the bytes left bound the rounds. A round over UTF-8
-- takes a byte. Each run of the armed handler of a timer list takes an entry, but for the first.
-- A fragment but the last holds a byte at least, so a message has no more of them than bytes, and
-- one. An insertion into a hash filter tries 16 seeds of 32 rounds. The search of seek among the keys
-- halves what is left; its loop over a block has fuel, as it may go on for ever. The
-- sequence of the client's waits has 44 pairs, so it sends 45 times at most.
--
-- Bounds: bytes are numbers below 256, UTF-16 units below 2 ^ 16. Varints keep the width of the
-- type and the width of int. Sizes of things in memory (size_t) and file positions are plain
-- numbers, as no sum of two of them reaches 2 ^ 63. The offset of a fragment keeps its 16 bits, the
-- size and the mask of a hash filter their 32. The numbers of the client's sequence of waits are
-- values of int, and a wait is below 2 ^ 63 nanoseconds.
--
-- Not modelled: net/rate-limiter, util/hex-dumper, util/embed-data and io/stream; the handlers of
-- net/rpc/; the loop of accept in net/http/; a callback of net/http/client.h or net/icmp-client.h
-- that calls the client before it returns (it is taken as a later call); system calls, flags and
-- logging, which have no logic of their own; the coroutine that a timer list cancels, and
-- a handler that is queued already when its wait is ended; the random generator of Rope, which is a
-- parameter (a stream of numbers), as are the files behind io/file.h.
pub mod Prelude
pub mod Util
pub mod Io
pub mod Db
pub mod Net
pub mod Security
