-- ===== src/ExaCapture/Rounds.antt =====
-- The loop of main of examples/exa_capture.cpp goes on for ever.
use capture.Prelude.{ℕ, zero, suc, ◌≡◌, refl, true, inr}
use capture.Inet.{Inet}
use capture.Outcome.{finished}
use capture.Outcome.Finishes.{Finishes, bind-Finishes}
use capture.Capture.{Capture}
use capture.Capture.Sound.{IsSound}
use capture.Library.{fresh, Request, request}
use capture.Library.Steps.{request-IsSound}
use capture.Library.Reachable.{fresh-IsSound}
use capture.Library.Finishing.{IsPlain, IsLogged, request_finishes}
use capture.ExaCapture.{Host, main_config, rounds, main}

module _ (inet : Inet) (host : Host) (plain : (n : ℕ) → IsPlain (host.os n) (host.pcap n)) where
  request_goes_on :
      (n : ℕ) (req : Request) (s : Capture)
      → IsSound s
      → IsLogged inet (host.os n) (host.pcap n) (plain n) req s
      → Finishes
          (λ r. IsSound r.state)
          (request inet (host.os n) (host.pcap n) host.interfaces req s)
  request_goes_on n req s h log =
      let f =
        request_finishes inet (host.os n) (host.pcap n) (plain n) host.interfaces req s h.no_copies
          log in
      (
        f.0,
        f.1,
        (request-IsSound inet (host.os n) (host.pcap n) host.interfaces req s h).result f.0 f.1,
      )

  rounds-Finishes : (n : ℕ) (s : Capture) → IsSound s → Finishes IsSound (rounds inet host n s)
  unfolding rounds
  rounds-Finishes zero s h = (s, refl, h)
  rounds-Finishes (suc n) s h = bind-Finishes IsSound IsSound _ _ (rounds-Finishes n s h) λ r k.
      bind-Finishes (λ q. IsSound q.state) IsSound _ _ (request_goes_on (suc n) _ r k tt)
        λ q e. (_, refl, e)

  -- If the host, which may change from call to call, has at each call files with lines of at most 1023 bytes,
  -- names of one to eighteen bytes in /proc, and frames of which at least 58 bytes are captured, and if the log
  -- file of the program can be opened at its start, then the program of the example gets through any number of
  -- rounds of its loop: CaptureInit and each CaptureUpdate finish, and leave a state in which `pids` and `processes` are in order and `packetIdx` is within the array.
  pub main_goes_on :
      (n : ℕ)
      → (host.os 0).spdlog.opens main_config.logfile ≡ true
      → (s : Capture) × (main inet host n ≡ finished s) × IsSound s
  unfolding main
  main_goes_on n log =
      bind-Finishes (λ r. IsSound r.state) IsSound _ _
        (request_goes_on 0 _ fresh fresh-IsSound (inr log)) λ r k. rounds-Finishes n r.state k
