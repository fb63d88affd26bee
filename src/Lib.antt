-- ===== src/Lib.antt =====
-- A model of the HTTP streaming audio server in http_audio_server/. The server keeps playlists
-- (class `Stream`): a client appends files, and asks for the next five seconds of audio, which come
-- back as WebM with Opus in a chunked HTTP response.
--
-- The files and what they model:
--  - Encoder (http_audio_server/encoder.cpp): `EncoderImpl::encode` gathers samples in frames of 40
--    ms, encodes and muxes each. libopus and libwebm are the record `Codec` of Encoder/Libs. The
--    children hold the constructor (Create), the encoder of one sample at a time (Abstract), the
--    proofs that `encode` does the same (Round, Refines, Output, Feed, Flush), and the interface
--    (Class).
--  - Stream (http_audio_server/main.cpp, class `Stream`): `append` and `advance`, which reads from
--    the decoders of the playlist in turn and feeds the encoder. Its surroundings are the record
--    `World` of Stream/Env: the child process of a decoder, the metadata, the JSON library, the
--    codec. Plays, Announce and Advance are about one call, Listen about calls one after the other,
--    Wire and Shape about the output, Failure about a file whose metadata cannot be read, and
--    Finished, with Twin, about files that are appended behind the end. Parts is the `World` in
--    which the decoder is the process that Decoder starts, and the metadata is what Metadata reads.
--  - Decoder (http_audio_server/decoder.cpp and decoder.hpp): `read` from the output of `ffmpeg`,
--    and the arguments that it is started with (Format); Child has the constructor, `wait` with its
--    loop that drains the output, the thread of the messages and the destructor. Class is the
--    interface, as a record of operations and laws that the implementation fills.
--  - Pipe (http_audio_server/process.cpp): `Process::generic_pipe`, which copies line by line.
--  - Response (http_audio_server/server.cpp): `ChunkedHTTPResponseBuf` and `Response`. A connection
--    of mongoose is the list of the calls on it.
--  - Process (http_audio_server/process.cpp and process.hpp): the state of a child process, over
--    the calls of the operating system as a record. Launch is the constructor with its pipes, the
--    fork and the descriptors that each side owns, as the list of its calls; Launch/Wiring follows
--    these calls through the tables of descriptors of the parent and of the child. Exec is
--    `Process::exec`, whose three threads and caller are a step relation, so that a run is any
--    interleaving of their rounds, in any order; Exec/Blocking has the same call with the child and
--    with pipes that hold a limited number of bytes, so that reads, writes and the wait can block.
--    Class and Class/Calls are the interface.
--  - Logger (http_audio_server/logger.cpp and logger.hpp): levels, counts, and what is sent to
--    which backend; the lines of `LogStreamBackend` are in Logger/Line, the stream and file
--    backends and the methods for each level in Logger/Front, and the interface in Logger/Class.
--    Threads is `log` called from several threads, as a step relation with the mutex: a schedule is
--    any sequence of steps.
--  - Metadata (http_audio_server/metadata.cpp and metadata.hpp): the tags of a file from the JSON
--    text that `ffprobe` prints. Flat is about `flaten`, Tags about the reader that takes one tag
--    after the other out of the map (File).
--  - StringUtils (http_audio_server/string_utils.cpp): the random names.
--  - Server (http_audio_server/server.cpp, `HTTPServerImpl`): the request map and what happens to a
--    handler that throws (`event_handler`); Server/Poll has the constructor, which logs the address
--    that it binds, and `poll`; Class is the interface.
--  - Handlers (http_audio_server/main.cpp): the five handlers of `main` over the map of streams,
--    and what each change of the map does (Map).
--  - Routes (http_audio_server/main.cpp): the regular expressions of the request map.
--  - App (http_audio_server/main.cpp): `main` as a whole. A request goes from the server through
--    Routes to a handler, and its reply is the list of calls on its connection; Requests, Changes
--    and Creation follow it on this way, and Session a client through three requests; Program is
--    this session on the parts of Stream/Parts, and Run the whole run of `main` around it. Client
--    is a client that goes on asking for audio. Kept has what a request keeps of the streams, for
--    Isolation. Start has the checks for the two binaries and the server.
--  - Terminal (http_audio_server/terminal.cpp and terminal.hpp): the control strings for colours
--    and styles, and the interface (Class).
--  - Json: the values of lib/json.hpp, and its functions as a record.
--  - Common: the helpers, and the library names that all use.
--
-- Texts and buffers are lists of bytes or samples; a machine integer is a native natural number
-- with its wrap-around written out. Where the source mutates an object the model passes its state
-- on, and an exception leaves the state that it had by then.
--
-- The loop of `encode` runs on fuel, a round for each sample and one more; the loop of `advance` on
-- one round for each byte wanted and each file, and one more; the loop that drains a decoder on one
-- round for each byte left, and one more. That this is enough is proved with the theorems about
-- `feed`, `finalize`, `advance` and `wait_decoder`, which say that there is a result. The loop of
-- `main` is a recursion on the polls that are still to come, each with the events that it meets.
--
-- Not modelled: the vendored libraries (lib/json.hpp, lib/mongoose.c), libopus, libwebm and the
-- operating system, whose calls are parameters; the log lines on std::cerr and the field `get` of a
-- request, which is always empty and never read; `fd_input_pipe`, which is declared and nowhere
-- defined. Of the logger, `add_backend` is modelled as called when no call of `log` is under way
-- (it takes the same mutex), and so are the methods that take no mutex. A file is what its decoder
-- gives; that a child process may be slow has no effect on a blocking read. The destructor of a
-- decoder is modelled in Decoder/Child, but not run where a decoder leaves its playlist, or a stream
-- its map: it changes no other state, and an exception from the `waitpid` in it would end the program.
pub mod Common
pub mod App
pub mod Decoder
pub mod Encoder
pub mod Handlers
pub mod Json
pub mod Logger
pub mod Metadata
pub mod Pipe
pub mod Process
pub mod Response
pub mod Routes
pub mod Server
pub mod Stream
pub mod StringUtils
pub mod Terminal
