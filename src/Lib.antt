-- ===== src/Lib.antt =====
-- The capture library (src/, exported by src/export/libcapture.h): it attributes the packets of the
-- network interfaces to the processes of a Linux host, and reports processes and packets to callbacks.
--
-- The parts, how they work together, and where each is modelled:
--
-- - src/capturecxx.{h,cpp} is the core. `Capture` holds the state of CaptureCxx as a record, with the
--   singletons CapInodeHelper and Logger and the calls of the callbacks made so far. Capture/Account has
--   ProcessTcp and ProcessUdp, Capture/Totals has UpdatePids, GetCpuTotal and GetMemTotal, Capture/Sync
--   the loop of Update that erases processes, Capture/Report the loops that fill the array for the
--   process callback. Library composes them to Init, Update and Shutdown, in the order of the source,
--   and has the three C functions of src/libcapture.cpp as requests; Library/Reachable has the states
--   that sequences of them reach, Library/Told with Library/Reports what one Update tells,
--   Library/Delivery the way of a frame to its process, Library/Shares all frames of an Update and the
--   tables that they are looked up in.
-- - src/local_addr.h, src/cap_device.{h,cpp}, src/cap_ifaddrs.{h,cpp}: Device, with InitDevice and
--   Contains of CaptureCxx.
-- - src/cap_packet.{h,cpp}: Packet, with Init, Invert, IsOutgoing, Hash and Link.
-- - src/cap_protocol.{h,cpp}: Protocol. It hands a packet to a `Sink`, an interface that Library fills
--   with ProcessTcp and ProcessUdp; the packet is a frame with the offset of its transport header.
--   Protocol/Datagrams has the frames of both versions of IP as bytes, Capture/Flows the packets.
-- - src/cap_handle.{h,cpp}: Handle, with OpenLive, SetNonBlock and Dispatch; HandlePacket is in Protocol.
-- - src/cap_inode_helper.{h,cpp}: Inode and NetRow. Refresh reads /proc/net and /proc/<pid>/fd, GetPidByIp
--   is `get_pid_by_ip`; ParseBuffer, for one row of /proc/net, is `parse_buffer` of NetRow. Rows as texts
--   in the layout of proc(5) are in NetRow/Columns and NetRow/RoundTrip, their addresses of both versions
--   of IP in NetRow/Sockets, a file of rows in NetRow/Tables, the open files of processes in
--   Inode/Opened, and Refresh on all of them in Inode/Whole.
-- - src/cap_process.{h,cpp}: ProcessFields has the fields and what a line of a file leaves in them,
--   Process has Parse with its readers of /proc/<pid>, AddPacket and Info. The files in the layout of
--   proc(5) are in Process/Lines (status), Process/IoLines (io), Process/StatLine (stat) and
--   Process/Whole.
-- - src/utils/logger.hpp: Logger, with streams and macros. That Init of CaptureCxx starts it is
--   `start_log`, of which Logger/Starting says how it ends; its instance is a field of the state, as
--   src/utils/singleton.h keeps it beside that of CaptureCxx.
-- - examples/exa_capture.cpp: ExaCapture, the two callbacks and the loop of main.
-- - src/export/capture_errors.h: Errors. src/export/capture_pod.h: Capture and Library.
-- - Scan, Stream and Text model what the source uses of sscanf, of std::fstream and of std::string:
--   conversions with widths and suppression, getline with its flags, decimal texts, strncpy.
-- - Outcome has what operations return: a `Status` is a code and a state; a `Run` also says that a
--   read went behind the captured bytes, that a loop does not end, or that an exception was thrown.
-- - Examples holds a small host, with runs of the operations on it.
--
-- Parameters: what the program asks of spdlog (Spdlog, which comes with Os), inet_ntop (Inet, with the
-- sizes and characters that POSIX promises as hypotheses), the files, directories, links and accounts
-- that the program reads (Os), libpcap (Pcap), and the list of getifaddrs(3).
--
-- Numbers: unsigned fields wrap as written; `int32_t`, `pid_t` and `int` are 32 bit patterns, so that
-- pids are ordered as patterns; a number that sscanf reads stays in the 64 bits of strtol (`%d`, `%ld`)
-- or strtoul (`%u`, `%X`), at whose ends it stops, and a shorter field takes the lower bits. A `double`
-- is zero or an unrounded quotient. The host is little-endian.
--
-- Fuel: `read_loop` runs on fuel and `for_lines` gives it the length of the file plus two rounds. Each
-- round but the last takes a byte of the file, and a round more finds the end, unless a line is longer
-- than the buffer. `none` is then the loop of the source that never ends.
--
-- Left out: the messages that the library logs, the error buffers of libpcap, freeing of memory (no
-- model of malloc and free: a copied packet is a value), the failure of sprintf, the overflow of `char
-- name[128]` by a longer process name (theorems that say which name is stored have shorter ones),
-- threads (the caller keeps them apart, as src/libcapture.cpp says), and time: files are what they are
-- when they are read.
pub mod Prelude
pub mod Text
pub mod Scan
pub mod Stream
pub mod Errors
pub mod ExaCapture
pub mod Logger
pub mod Inet
pub mod Device
pub mod Packet
pub mod Os
pub mod Outcome
pub mod Process
pub mod ProcessFields
pub mod Handle
pub mod Protocol
pub mod Library
pub mod Capture
pub mod Inode
pub mod Examples
pub mod NetRow
