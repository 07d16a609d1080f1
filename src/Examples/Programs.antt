-- ===== src/Examples/Programs.antt =====
-- A host on which every call finishes, and the program of the example on it.
use capture.Prelude.{
  ℕ, ◌≡◌, refl, inr, arith, subst, true, List, [], ◌∷◌, ◌++◌, some, none, false, All, ◌≤◌, ◌⊎◌,
}
use capture.Text.{Str, codes, c_str, to_string}
use capture.Stream.Lines.{fits}
use capture.Os.{Os, DirEntry, dt_dir}
use capture.Outcome.{Status, finished, thrown}
use capture.Handle.{Pcap, Frame}
use capture.Protocol.{parse, Seen}
use capture.Protocol.Headers.{link_bytes, header_bytes}
use capture.Protocol.InBounds.{parse_in_bounds}
use capture.Capture.{Capture, ProcessInfo, update_called}
use capture.Capture.Sound.{IsSound}
use capture.Capture.Totals.Small.{IsShort}
use capture.Capture.Report.{report_processes}
use capture.ProcessFields.{CapProcess, Percent, new_process, zero_percent, quotient}
use capture.Process.{info}
use capture.Library.{fresh, request, capture_init}
use capture.Logger.{Spdlog, fresh_logger}
use capture.Library.{CaptureInit}
use capture.Logger.Starting.{CanLog, IsClosed, IsStarted}
use capture.Library.LogFile.{capture_init_ends}
use capture.Library.Finishing.{IsPlain, request_finishes}
use capture.ExaCapture.{Host, main, printed}
use capture.ExaCapture.Rounds.{main_goes_on}
use capture.ExaCapture.Printing.{TextsFit, printed-report_processes}
use capture.Examples.Hosts.{dotted, interface, noon, bare}
use capture.Examples.Packets.{link_header, ip_header, ethernet, counter}
use capture.Examples.Sessions.{one_frame, start_request}

-- A frame of 58 bytes with ports and 20 bytes more.
abbrev long_frame : Frame
long_frame = record {
  len = 60;
  ts = noon;
  bytes = link_bytes link_header 8 0 (
      header_bytes ip_header (
        156 ∷ 64 ∷ 0 ∷ 80 ∷ 0 ∷ 0 ∷ 0 ∷ 0 ∷ 0 ∷ 0 ∷ 0 ∷ 0 ∷ 0 ∷ 0 ∷ 0 ∷ 0 ∷ 0 ∷ 0 ∷ 0 ∷ 0 ∷ 0 ∷ 0
        ∷ 0 ∷ 0 ∷ []));
}

abbrev full_frames : Pcap
full_frames = record one_frame {
  pcap_dispatch = λ p cnt. record { frames = long_frame ∷ []; ret = 1 };
}

-- Every file has two lines, and /proc the process 7.
abbrev procs : List DirEntry
procs = record { d_type = dt_dir; d_name = codes "7" } ∷ []

abbrev plain_host : Os
plain_host = record bare {
  file = λ path. some (codes "Name:\tcat\ncpu  1 2 3 4 5 6 7\n");
  dir = λ path. some procs;
}

plain_host-IsPlain : IsPlain plain_host full_frames
unfolding fits
plain_host-IsPlain = record {
  files = λ path. refl;
  names = λ es e. subst (All IsShort) (listed procs es e) ((omega arith, omega arith), tt);
  frames = λ p cnt. (omega arith, tt);
}
  where
    listed : (xs ys : List DirEntry) → some xs ≡ some ys → xs ≡ ys
    listed xs ys e = cc

parse_in_bounds_example :
    (q : Seen ℕ) × (parse counter ethernet long_frame 0 ≡ finished q) × (0 ≤ q.state)
parse_in_bounds_example =
    parse_in_bounds counter (λ n. 0 ≤ n) (λ ctx f off s b p. (_, refl, omega arith))
      (λ ctx f off s b p. (_, refl, omega arith)) ethernet long_frame 0 (omega arith) (omega arith)

request_finishes_example :
    (r : Status Capture) × (request dotted plain_host full_frames
        (some (interface ∷ []))
        start_request
        fresh
      ≡ finished r)
request_finishes_example =
    request_finishes dotted plain_host full_frames plain_host-IsPlain (some (interface ∷ []))
      start_request fresh refl (inr refl)

abbrev same_host : Host
same_host = record {
  os = λ n. plain_host;
  pcap = λ n. full_frames;
  interfaces = some (interface ∷ []);
}

main_goes_on_example : (s : Capture) × (main dotted same_host 3 ≡ finished s) × IsSound s
main_goes_on_example = main_goes_on dotted same_host (λ n. plain_host-IsPlain) 3 refl

-- A table with the process 7.
abbrev cat : CapProcess
cat = record (new_process 7) { name = codes "cat"; user = codes "ann"; group = codes "staff" }

abbrev table : Capture
table = record fresh { processes = (7, cat) ∷ []; process_callback = true }

abbrev as_text : Percent → Str
as_text zero_percent = codes "0"
as_text (quotient part total) = to_string part

cat-TextsFit : TextsFit cat
unfolding c_str
cat-TextsFit = record {
  name = (refl, omega arith);
  cmdline = (refl, omega arith);
  user = (refl, omega arith);
  group = (refl, omega arith);
}

printed-report_processes_example :
    (xs : List ProcessInfo) × ((report_processes table).calls ≡ [] ++ update_called xs 1 ∷ [])
    × (printed as_text (update_called xs 1) ≡ info as_text cat ∷ [])
printed-report_processes_example = printed-report_processes as_text table refl (cat-TextsFit, tt)

-- An spdlog that can open no file.
abbrev closed_log : Spdlog
closed_log = record { opens = λ path. false; should_log = λ at lvl. true }

abbrev settings : CaptureInit
settings = record { logfile = codes "/a.log"; ms = 100; snaplen = 512; promise = 0; fliter = none }

-- The host, but for its log files.
abbrev closed_host : Os
closed_host = record plain_host { spdlog = closed_log }

closed_host-IsPlain : IsPlain closed_host full_frames
closed_host-IsPlain = record {
  files = plain_host-IsPlain.files;
  names = plain_host-IsPlain.names;
  frames = plain_host-IsPlain.frames;
}

capture_init_ends_example :
    (IsClosed closed_log settings.logfile fresh_logger
      × (request dotted closed_host full_frames
            (some (interface ∷ []))
            (capture_init settings true true)
            fresh
          ≡ thrown))
    ⊎ (CanLog closed_log settings.logfile fresh_logger
        × ((r : Status Capture) × (request dotted closed_host full_frames
                (some (interface ∷ []))
                (capture_init settings true true)
                fresh
              ≡ finished r)
            × IsStarted r.state.logger))
capture_init_ends_example =
    capture_init_ends dotted closed_host full_frames (some (interface ∷ [])) settings true true
      fresh closed_host-IsPlain refl
