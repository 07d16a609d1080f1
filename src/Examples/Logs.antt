-- ===== src/Examples/Logs.antt =====
-- Names of files and messages.
use capture.Prelude.{◌≤◌, ◌≡◌, refl, true, [], ◌∷◌, ◌++◌, All, leb, leb→le}
use capture.Text.{Str, codes}
use capture.Logger.{
  trace, err, warn, critical, severity, Logger, Spdlog, fresh_logger, daily_file, console_sink,
  init, start_log, set_level, say_all, get_short_name, is_separator, find_last_of, log_line,
  stream_line,
}
use capture.Logger.Names.{IsDirectory, IsPlainName, get_short_name-split}
use capture.Logger.Quiet.{IsFilter, start_log_quiet}

get_short_name-split_example :
    (dir : Str) × (codes "src/cap_process.cpp"
      ≡ dir ++ get_short_name (codes "src/cap_process.cpp"))
    × IsDirectory dir
    × IsPlainName (get_short_name (codes "src/cap_process.cpp"))
get_short_name-split_example = get_short_name-split (codes "src/cap_process.cpp")

short_name_runs : get_short_name (codes "src/cap_process.cpp") ≡ codes "cap_process.cpp"
unfolding get_short_name find_last_of is_separator
short_name_runs = refl

abbrev started : Logger
started = record fresh_logger {
  is_inited = true;
  log_level = err;
  sinks = daily_file (codes "a.log") ∷ console_sink ∷ [];
  spdlog_level = err;
  flush_level = warn;
}

abbrev filtering : Spdlog
filtering = record { opens = λ path. true; should_log = λ at lvl. leb (severity at) (severity lvl) }

filtering-IsFilter : IsFilter filtering
filtering-IsFilter = record { filters = λ at lvl e. leb→le (severity at) (severity lvl) e }

start_log_quiet_example :
    All
      (λ m. 4 ≤ severity m.0)
      (say_all filtering
        (log_line trace (codes "begin")
          ∷ stream_line critical (codes "no " ∷ codes "device" ∷ [])
          ∷ [])
        started).written
unfolding start_log init set_level
start_log_quiet_example =
    start_log_quiet filtering (codes "a.log") fresh_logger started
      (log_line trace (codes "begin")
        ∷ stream_line critical (codes "no " ∷ codes "device" ∷ [])
        ∷ [])
      filtering-IsFilter refl tt
