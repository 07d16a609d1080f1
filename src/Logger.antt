-- ===== src/Logger.antt =====
-- src/utils/logger.hpp: the logger of the library. What the source uses of spdlog is a parameter; the messages
-- that spdlog writes are kept in the state.
pub mod Names
pub mod Quiet
pub mod Starting
use capture.Prelude.{
  ℕ, suc, Bool, true, false, ◌||◌, List, [], ◌∷◌, ◌++◌, Option, none, some, leb, ◌==◌,
  if◌then◌else◌, drop,
}
use capture.Text.{Str, c_str}
use capture.Outcome.{Run, finished, thrown, ◌>>=◌}

-- spdlog::level::level_enum, and its order
pub data Level : Type 0 where
  trace debug info warn err critical off : Level

abbrev pub severity : Level → ℕ
severity trace = 0
severity debug = 1
severity info = 2
severity warn = 3
severity err = 4
severity critical = 5
severity off = 6

pub data LogSink : Type 0 where
  daily_file : Str → LogSink
  console_sink : LogSink

-- spdlog: whether a daily log file can be opened, and whether a logger at the first level writes a message of the
-- second.
pub record Spdlog : Type 0 where
  pub opens : Str → Bool
  pub should_log : Level → Level → Bool

-- Logger, with the sinks, the levels and the messages of spdlog.
pub record Logger : Type 0 where
  pub is_inited : Bool
  pub log_level : Level
  pub sinks : List LogSink
  pub spdlog_level : Level
  pub flush_level : Level
  pub written : List (Level × Str)

-- The singleton before Init.
abbrev pub fresh_logger : Logger
fresh_logger = record {
  is_inited = false;
  log_level = trace;
  sinks = [];
  spdlog_level = info;
  flush_level = off;
  written = [];
}

-- Logger::Init. A file that cannot be opened makes spdlog throw a spdlog_ex, which
-- `catch (std::exception_ptr e)` does not catch.
unfoldable pub init : Spdlog → Str → Bool → Logger → Run (Bool × Logger)
init spdlog path console l =
    if l.is_inited
    then finished (true, l)
    else if spdlog.opens path
    then finished (
      true,
      record l {
        sinks = daily_file path ∷ (if console then console_sink ∷ [] else []);
        flush_level = warn;
        spdlog_level = l.log_level;
        is_inited = true;
      },
    )
    else thrown

-- Logger::SetLevel, Level and Flush
unfoldable pub set_level : Level → Logger → Logger
set_level lvl l = record l { log_level = lvl; spdlog_level = lvl }

unfoldable pub level : Logger → Level
level l = l.log_level

unfoldable pub flush : Level → Logger → Logger
flush lvl l = record l { flush_level = lvl }

-- Logger::Log
unfoldable pub log : Spdlog → Level → Str → Logger → Logger
log spdlog lvl text l =
    if spdlog.should_log l.spdlog_level lvl
    then record l { written = l.written ++ (lvl, text) ∷ [] }
    else l

-- LOG_TRACE asks for the level first; the other macros only log.
unfoldable pub log_trace : Spdlog → Str → Logger → Logger
unfolding level
log_trace spdlog text l =
    if severity (level l) == severity trace then log spdlog trace text l else l

-- The first two calls of CaptureCxx::Init.
unfoldable pub start_log : Spdlog → Str → Logger → Run Logger
start_log spdlog path l = do r ← init spdlog path true l; finished (set_level err r.1)

-- path.find_last_of("/\\")
unfoldable pub is_separator : ℕ → Bool
is_separator c = c == 47 || c == 92

unfoldable pub find_last_of : Str → Option ℕ
find_last_of [] = none
find_last_of (c ∷ s) = elim (find_last_of s) [
  | some pos ↦ some (suc pos)
  | none ↦ if is_separator c then some 0 else none
]

-- Logger::GetShortName: the text that the pointer which it returns would point to.
unfoldable pub get_short_name : Str → Str
get_short_name [] = []
get_short_name (c ∷ s) = elim (find_last_of (c ∷ s)) [
  | none ↦ c ∷ s
  | some pos ↦ drop (suc pos) (c ∷ s)
]

-- Logger::Printf, with the text that fmt::sprintf makes, up to its NUL.
unfoldable pub printf : Spdlog → Level → Str → Logger → Logger
unfolding log
printf spdlog lvl text l = log spdlog lvl (c_str text) l

-- Logger::Shutdown: spdlog::shutdown drops the sinks, and the logger still counts as initialised.
unfoldable pub shutdown : Logger → Logger
shutdown l = record l { sinks = [] }

-- LogStream, with the text of its std::ostringstream.
pub record LogStream : Type 0 where
  pub lvl : Level
  pub prefix : Str
  pub buffer : Str

abbrev pub new_stream : Level → Str → LogStream
new_stream lvl prefix = record { lvl = lvl; prefix = prefix; buffer = [] }

-- operator<< of the std::ostringstream, for each text of a chain
unfoldable pub put_all : List Str → LogStream → LogStream
put_all [] st = st
put_all (t ∷ ts) st = put_all ts (record st { buffer = st.buffer ++ t })

-- LogStream::flush; the text stays in the stream.
unfoldable pub flush_stream : Spdlog → LogStream → Logger → Logger
unfolding log
flush_stream spdlog st l = log spdlog st.lvl (c_str (st.prefix ++ st.buffer)) l

-- LogStream::~LogStream
unfoldable pub close_stream : Spdlog → LogStream → Logger → Logger
unfolding flush_stream
close_stream = flush_stream

-- A line of the program that logs: LOG_TRACE or one of the other macros by its level, one of the PRINT macros
-- with the text that it makes, and STM_…() << … with its texts.
pub data LogLine : Type 0 where
  log_line print_line : Level → Str → LogLine
  stream_line : Level → List Str → LogLine

unfoldable pub say : Spdlog → LogLine → Logger → Logger
unfolding log log_trace printf put_all close_stream
say spdlog (log_line trace text) l = log_trace spdlog text l
say spdlog (log_line lvl text) l = log spdlog lvl text l
say spdlog (print_line lvl text) l = printf spdlog lvl text l
say spdlog (stream_line lvl texts) l = close_stream spdlog (put_all texts (new_stream lvl [])) l

unfoldable pub say_all : Spdlog → List LogLine → Logger → Logger
say_all spdlog [] l = l
say_all spdlog (m ∷ ms) l = say_all spdlog ms (say spdlog m l)
