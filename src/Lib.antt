-- ===== src/Lib.antt =====
-- http_decoder has two programs. The decoder in http_parser/httpfunction/src reads Ethernet from a capture file, puts the TCP payloads of each connection together in two buffers, and
-- parses a request with its response into a record of text.
--
-- The parts, from the bottom up, and the files that model them (paths from the repository's root):
-- - Base: what the others share. Base/Memory has the libc calls (malloc, realloc, memset, memcpy) on
--   blocks that are lists of bytes, with undefined behaviour as a value, `fault`; Base/Words the
--   checked loads from a block on a little-endian machine, ntohs, ntohl and the cast of an int16_t to
--   size_t; Base/Text the texts; Base/Lists the lists measured by native numbers; Base/Tests the
--   Boolean tests.
-- - Buffer: http_parser/httpfunction/src/Buffer.h and Buffer.cpp. `CBuffer` has the fields of the
--   class; reset, construct, append, get_buf and get_buf_len are its methods.
-- - Public: Public.h. The constants, CResult with reset_result, and in Public/Headers the std::map of
--   headers as a list of entries in the order of their keys.
-- - Session: CSession of SessionHash.h with its Reset.
-- - HttpParse: HttpParse.h and HttpParse.cpp. HttpParse/Steps is the form of the parsing methods, which
--   change `pos` and an object and return true, return false or meet undefined behaviour.
--   HttpParse/Scan is GetBufByTag; HttpParse itself GetMethod, GetVersion, ParseMethodAndUri,
--   ParseRspState and ParseHeader; HttpParse/Sides the calls for the request and for the response;
--   HttpParse/Send is Send, HttpParse/Record what it writes, HttpParse/Exchange is Parse.
-- - FormatPacket: FormatPacket.h and FormatPacket.cpp. A packet is the list of bytes from the pointer
--   on, with the header pointers as offsets.
-- - SessionHash: SessionHash.h, SessionHash.cpp and BehaviorInfo.h. A shared_ptr to a session is a
--   number under which the table's `objects` holds the object that all owners see.
-- - Handle: Handle.h and Handle.cpp. Handle/Aging is TimeOutCheck; process is Process, its branches
--   are functions of their own. What a call takes from outside (the clock at each reading, the
--   allocator, the bytes that a new object finds in its memory) is the record Env.
--   The two printf with %s at its end are print_buffers, which asks for a NUL byte in the block of each
--   buffer; Handle/Printing is about them. Handle/Calls has calls of Process one after another.
--   Handle/Delivery, Handle/Carried, Handle/Deliveries, Handle/Opening, Handle/Closing and
--   Handle/Connection follow the packets of one connection, with the messages as HttpParse/Written has
--   them.
-- - Receiver: Receiver.h and Receiver.cpp. behavior_info is the middle of HandleMessage.
-- - AppMain: AppMain.cpp. AppMain/Reading is fread; round is one round of the loop, frames the loop,
--   print_response what comes behind it, run the whole. AppMain/Capture has capture files as they are
--   written, AppMain/CaptureRun what the loop hands over of one, AppMain/CaptureEnds the whole main.
-- - Actor: the actor of http_parser.cpp, whose start runs the same loop on the actor's own members.
--   receive_all takes its messages one after another.
-- - Cluster: actor-framework-0.15.0a1/examples/master.cpp and client.cpp, a master that starts workers
--   on other hosts by ssh and starts them again when their heartbeats stop. Cluster/Master has the
--   three handlers of master_actor, Cluster/SshWorker is ssh_worker, Cluster/Client has trim, getcpu
--   and the handlers of client_actor, Cluster/Launch both caf_main, Cluster/Texts the C strings and
--   getline. Cluster/Letters has the messages. Cluster/System puts the actors together: its state is
--   the master with the messages on their way, a step delivers one of them, in any order, or loses one
--   that a broken connection can lose, and Reach has the states that come of it. Cluster/Invariant is
--   what holds in all of them; Cluster/Schedule has runs of which the deliveries are known.
-- - Faults, in HttpParse, Handle and Receiver, is about the undefined behaviour that a call can meet;
--   Handle/Good has what is asked of the sessions for that, Buffer/Growth of a buffer, and
--   Receiver/Runs is about frames one after another. SessionHash/AsMap reads the table as a map
--   from connections to sessions.
-- - Tests: small runs, and each theorem at a concrete input.
--
-- Numbers are native natural numbers. Where the source counts on uint32_t, uint16_t or size_t, the
-- wrap-around is written out (`% 2 ^ w`, and `+ 2 ^ w` in front of a difference). A time difference on
-- time_t that is negative is below every limit that it is compared with, as is the truncated one.
--
-- Fuel: the endless loop of ParseHeader gets one more than the block has bytes, and every round but the
-- last moves `pos` up in the block; the loop over the file gets two more rounds than the file has
-- bytes, and every round takes bytes or marks the end; the loop over the file of hosts gets one more
-- round than the file has bytes. TimeOutCheck counts down its 65535 buckets. A number is printed with
-- at most twenty digits.
--
-- Not modelled: what is written to the console; fprintf of AppMain.cpp to a file opened for reading; destructors; the
-- structs and macros of FormatPacket.h that nothing uses; the start-up of DPDK and of the actor system
-- in http_parser.cpp; the publishing of the master under its port; the build files; libcaf_nfactor, a
-- stub; the rest of actor-framework-0.15.0a1, another project's library.
-- boost::lexical_cast, the multiplication of a float and its conversion to uint32_t are parameters
-- (LexicalCast), about which no theorem assumes anything but the values it names; malloc is one
-- (Heap), and where it matters it is assumed to give a block of the size asked for, or not to fail.
-- What std::system, popen, getpid and remote_actor give is a parameter of each step (World).
pub mod Base
pub mod Buffer
pub mod Public
pub mod Session
pub mod HttpParse
pub mod FormatPacket
pub mod SessionHash
pub mod Handle
pub mod Receiver
pub mod AppMain
pub mod Actor
pub mod Cluster
mod Tests
