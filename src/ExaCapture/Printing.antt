-- ===== src/ExaCapture/Printing.antt =====
-- What the callback of examples/exa_capture.cpp prints of a report.
use capture.Prelude.{
  ℕ, ◌≤◌, ◌≡◌, refl, true, List, [], ◌∷◌, ◌++◌, length, map, take, ap, ◌∙◌, All, take_all,
}
use capture.Text.{Str, strncpy, c_str}
use capture.ProcessFields.{CapProcess, Percent}
use capture.Process.{info}
use capture.Capture.{Capture, ProcessInfo, update_called}
use capture.Capture.Report.{info_of, report_processes}
use capture.Capture.Report.Filling.{entry_of, report_shows_processes}
use capture.ExaCapture.{entry_line, printed}

-- A text with no NUL that `n` bytes hold.
abbrev pub IsText : ℕ → Str → Type 0
IsText n s = (c_str s ≡ s) × (length s ≤ n)

-- The texts of a process fit the fields of Process_t.
pub record TextsFit (p : CapProcess) : Type 0 where
  pub name : IsText 127 p.name
  pub cmdline : IsText 511 p.cmdline
  pub user : IsText 127 p.user
  pub group : IsText 127 p.group

strncpy-IsText : (n : ℕ) (s : Str) → IsText n s → strncpy s n ≡ s
unfolding strncpy
strncpy-IsText n s h = ap (take n) h.0 ∙ take_all n s h.1

module _ (show : Percent → Str) where
  entry_line-info : (p : CapProcess) → TextsFit p → entry_line show (info_of p) ≡ info show p
  unfolding entry_line info_of info
  entry_line-info p h =
      rw
        (
          strncpy-IsText 127 p.name h.name,
          strncpy-IsText 511 p.cmdline h.cmdline,
          strncpy-IsText 127 p.user h.user,
          strncpy-IsText 127 p.group h.group,
        )
        refl

  lines-info :
      (m : List (ℕ × CapProcess))
      → All (λ e. TextsFit e.1) m
      → map (entry_line show) (map entry_of m) ≡ map (λ e. info show e.1) m
  lines-info [] h = refl
  lines-info (e ∷ m) h = rw (entry_line-info e.1 h.0) (ap (◌∷◌ (info show e.1)) (lines-info m h.1))

  -- What the example prints when the library reports its processes is one line for each process of the table, in
  -- its order, and each is the line that Info prints of the process, if the texts of all processes fit the fields
  -- of Process_t.
  pub printed-report_processes :
      (s : Capture)
      → s.process_callback ≡ true
      → All (λ e. TextsFit e.1) s.processes
      → (xs : List ProcessInfo) × ((report_processes s).calls
          ≡ s.calls ++ update_called xs (length s.processes) ∷ [])
        × (printed show (update_called xs (length s.processes))
            ≡ map (λ e. info show e.1) s.processes)
  unfolding printed
  printed-report_processes s c h =
      let r = report_shows_processes s c in
      (r.0, r.1, ap (map (entry_line show)) r.2 ∙ lines-info s.processes h)
