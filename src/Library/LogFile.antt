-- ===== src/Library/LogFile.antt =====
-- CaptureInit and the log file of src/utils/logger.hpp.
use capture.Prelude.{
  ◌≡◌, ◌⊎◌, sym, subst, ap, ◌∙◌, ℕ, [], ◌∷◌, ◌==◌, length, Bool-cases, inl, inr, refl, Bool, false,
  List, Option,
}
use capture.Inet.{Inet}
use capture.Device.{IfAddrs}
use capture.Outcome.{Status, finished, ended, thrown}
use capture.Text.{Str, codes}
use capture.Scan.{sscanf, nonzero}
use capture.Stream.Invariant.{Leaves}
use capture.Process
use capture.ProcessFields.{new_process}
use capture.Capture.Totals.{get_mem_total, mem_line, mem_format}
use capture.Capture.Sound.Readings.{read_total-Keeps}
use capture.Library.Touching.{update_pids-only, refresh_inodes-only}
use capture.Outcome.Yields.{
  Yields, ended-Yields, bind-Yields, if-Yields, finished-Yields, result-Yields,
}
use capture.Os.{Os}
use capture.Handle.{Pcap}
use capture.Logger.{Logger, start_log}
use capture.Logger.Starting.{
  CanLog, IsClosed, IsStarted, start_log-CanLog, start_log-IsClosed, CanLog-IsClosed,
}
use capture.Capture.{Capture}
use capture.Library.{CaptureInit, capture_init, request, init, add_processes}
use capture.Library.Finishing.{IsPlain, request_finishes}

mem_line-logger :
    (l : Logger) (t : Capture) (b : Str) → t.logger ≡ l → Leaves (λ s. s.logger ≡ l) (mem_line t b)
unfolding mem_line
mem_line-logger l t b k = elim (Bool-cases (nonzero (sscanf b mem_format))) [
  | inl e ↦ rw (e, mem_line) k
  | inr e ↦ rw (e, mem_line) k
]

module _ (inet : Inet) (os : Os) (pcap : Pcap) (l : Logger) where
  get_mem_total-logger :
      (s : Capture) → s.logger ≡ l → Yields (λ q. q.state.logger ≡ l) (ended (get_mem_total os s))
  unfolding get_mem_total
  get_mem_total-logger s h = ended-Yields (get_mem_total os s) (
      read_total-Keeps (λ t. t.logger ≡ l) (os.file (codes "/proc/meminfo")) mem_line s
        (mem_line-logger l) h)

  add_processes-logger :
      (pids : List ℕ) (s : Capture)
      → s.logger ≡ l
      → Yields (λ q. q.logger ≡ l) (add_processes inet os pids s)
  unfolding add_processes
  add_processes-logger [] s h = finished-Yields _ h
  add_processes-logger (pid ∷ pids) s h =
      bind-Yields _
        (result-Yields (ended (Process.parse os s.memory s.delta_cpu (new_process pid))))
        λ r _. add_processes-logger pids _ h

  -- Init leaves the logger that it starts.
  init-logger :
      (its : Option (List IfAddrs)) (config : CaptureInit) (processes packets : Bool) (s : Capture)
      → start_log os.spdlog config.logfile s.logger ≡ finished l
      → Yields (λ q. q.state.logger ≡ l) (init inet os pcap its config processes packets s)
  unfolding init
  init-logger its config processes packets s e =
      rw (e, init)
        (bind-Yields _ (get_mem_total-logger _ refl) λ m h.
          if-Yields (length m.state.devices == 0) (finished-Yields _ h) (
            bind-Yields _ (update_pids-only os _) λ p g.
              bind-Yields _ (refresh_inodes-only inet os p.state) λ r k.
                bind-Yields _
                  (add_processes-logger r.pids r
                    (ap (λ t. t.logger) k ∙ (ap (λ t. t.logger) g ∙ h)))
                  λ q f. finished-Yields _ f))

-- On a host on which every call finishes, CaptureInit throws an exception exactly if the logger is not initialised
-- and its file cannot be opened; else it finishes, with an initialised logger at the level of errors.
pub capture_init_ends :
    (inet : Inet) (os : Os) (pcap : Pcap) (its : Option (List IfAddrs)) (config : CaptureInit)
    (processes packets : Bool) (s : Capture)
    → IsPlain os pcap
    → s.capture_all ≡ false
    → (IsClosed os.spdlog config.logfile s.logger
        × (request inet os pcap its (capture_init config processes packets) s ≡ thrown))
      ⊎ (CanLog os.spdlog config.logfile s.logger
          × ((r : Status Capture) × (request inet os pcap its
                  (capture_init config processes packets)
                  s
                ≡ finished r)
              × IsStarted r.state.logger))
unfolding request init
capture_init_ends inet os pcap its config processes packets s plain h =
    elim (CanLog-IsClosed os.spdlog config.logfile s.logger) [
      | inl g ↦
          let (r, e) =
            request_finishes inet os pcap plain its (capture_init config processes packets) s h g in
          let (l, f, k) = start_log-CanLog os.spdlog config.logfile s.logger g in
          let same = (init-logger inet os pcap l its config processes packets s f).result r e in
          inr (g, (r, e, subst IsStarted (sym same) k))
      | inr c ↦ inl (c, rw (start_log-IsClosed os.spdlog config.logfile s.logger c, init) refl)
    ]
