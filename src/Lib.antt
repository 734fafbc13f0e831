-- ===== src/Lib.antt =====
-- uvio: C++20 coroutines over libuv. This library models the parts of uvio that carry its own
-- logic and do not live inside libuv: the byte buffers, the buffered reader and writer over a
-- stream, the byte order helpers and the codecs that frame messages on a connection, base64, the
-- coroutine tasks and the awaiters around libuv callbacks, the latch, the logger, the handlers
-- of the HTTP server and of the websocket server and client, and the programs of the examples.
--
-- How the parts interact. A codec (uvio/codec) reads from a buffered reader and writes to a
-- buffered writer (uvio/io); both keep a StreamBuffer and call the stream that they wrap
-- (uvio/net). The model follows that: Codec takes a ByteReader and a ByteWriter (Io.Ports) as
-- parameters, Io.Ports.Buffered shows that BufReader and BufWriter are such ports (for texts, a
-- BufReader that has all of the text in its buffer), and these take the stream as a Source or a
-- Sink (Io.Source, Io.Sink), which state what libuv documents of a stream's reads and writes.
-- libuv also documents reads that bring no byte though the stream goes on (nread == 0); a Source
-- says of a stream that it is Steady if it has none, and TcpStream::read_exact, and all that
-- stands on it, is right on such streams only.
--
-- Files.
--   Prelude           numbers, lists, Boolean tests, and the laws of the bit operations
--   Common.Result     uvio/common/result.hpp: ErrorCode, Error, message, Result
--   Common.Base64     uvio/common/base64.hpp, the encoder and decoder without OpenSSL
--   Common.Coro       the pattern "co_await, and co_return the error"
--   Io.Buffer         uvio/io/buffer.hpp: StreamBuffer; its positions, copies and flag search
--   Io.BufReader      uvio/io/impl/buf_reader.hpp: read, read_exact, read_until, read_line
--   Io.BufWriter      uvio/io/impl/buf_writer.hpp: write, flush, write_all
--   Io.Source, Io.Sink, Io.Ports   the interfaces between the parts
--   Io.Split          uvio/io/split.hpp and TcpStream::into_split: halves that share a stream
--   Net.TcpStream     uvio/net/tcp_stream.hpp: read_exact, the loop over reads of the socket, and the
--                     class as the owner of a socket (Net.TcpStream.Owner)
--   Net.Endian        uvio/net/endian.hpp: bswap_16/32/64, hton and ntoh for both byte orders
--   Codec.FixedLength      uvio/codec/fixed_length.hpp
--   Codec.LengthDelimited  uvio/codec/length_delimited.hpp
--   Codec.Mask, Codec.Websocket    uvio/codec/websocket.hpp: apply_mask; decode and encode of frames
--   Codec.Http        uvio/codec/http.hpp and uvio/net/http/http_util.hpp: the parsers, HttpHeader,
--                     and, in its children Encode and Decode, encode and decode of requests and
--                     responses
--   Common.Stoi       std::stoi and std::to_string as the C++ standard describes them
--   Socks5            examples/socks5_server.cpp: auth_methods, read_request, write_reply, forward
--   Channel           examples/tcp_channel.hpp, examples/channel_client.cpp, examples/channel_server.cpp
--   Echo              examples/echo_server.cpp: process
--   Await             co_await of an awaiter whose libuv callback comes once: a step relation, and what
--                     holds in every order of the steps (Await.Progress)
--   Net.TcpStream.Awaiters, Timer   the awaiters of read, write and connect (uvio/net/tcp_stream.hpp),
--                     of uvio/time/sleep.hpp and of uvio/work.hpp
--   Net.Dns, Net.Listener   the awaiters of uvio/net/dns.hpp and uvio/net/tcp_listener.hpp
--   Net.HttpServer    uvio/net/http/http_server.hpp: handle_http, over uvio/net/http/http_frame.hpp
--   Net.Websocket     uvio/net/websocket: the framing, handle_websocket of the server and the client
--                     and the programs of examples/websocket_server.cpp and
--                     examples/websocket_client.cpp (Programs, Rounds)
--   Sync.Latch        uvio/sync/latch.hpp: awaiters and calls of count_down, in the turns of one thread
--   Log               uvio/log.hpp: Level, Timestamp (to_int, get_timestamp), Console (log)
--   Task              uvio/coroutine/task.hpp and uvio/runtime.hpp: the frames of coroutines, transfer
--                     of control, block_on; what a coroutine means without frames (Task.Meaning), and
--                     in Task.Handle the class Task
--   Tests             witnesses and runs over concrete streams
--
-- State and operations. A C++ object is a record, and a method returns the new record. A byte is
-- its unsigned value. A span that the source fills is passed in and returned. A run ends in a
-- value, in fault (a failed assert or an access out of bounds) or in hang (the rounds of a loop
-- are used up); a coroutine's Result is a value of the run. The positions of StreamBuffer are
-- ints in the source; the model takes buffers to be smaller than 2 ^ 31 bytes. BufReader casts
-- the size of a span to int only if the span fits the buffer. BufWriter::write, which compares
-- with the size of its span cast to int, and base64::decode, which counts with ints, keep their
-- wrap-around, so that ByteWriter and the codecs over it promise something of spans of less than
-- 2 ^ 31 bytes only. Debug output is left out. HttpHeader lists the entries of the unordered
-- multimap as they were added; the order in which the encoders go through them, which C++ leaves
-- open, is a parameter.
--
-- Fuel. Each while loop takes the number of rounds that it may make. read_exact needs one round
-- for each byte of the span, since a steady stream gives at least one byte for each read; flush
-- needs two, since one write empties the buffer; the length prefix takes ten rounds for 64 bits;
-- parse_headers takes one more than there are characters; forward of the proxy and process of the
-- echo server take one more than there are bytes to come.
--
-- Not modelled: libuv itself, the copy of tl::expected, backward.hpp, the calls of OpenSSL, the
-- client over curl, handle_proxy of the SOCKS5 proxy, the memory orders of the latch on several
-- threads, spawn from within a coroutine, the loops that accept connections, and the parts that
-- only pass calls on to the modelled ones.
pub mod Prelude
pub mod Common
pub mod Io
pub mod Net
pub mod Codec
pub mod Socks5
pub mod Channel
pub mod Echo
pub mod Task
pub mod Timer
pub mod Log
pub mod Await
pub mod Sync
mod Tests
