-- ===== src/Logger/Quiet.antt =====
-- What the library writes to its log.
use capture.Prelude.{
  ◌≤◌, ◌≡◌, refl, Bool, true, List, [], ◌∷◌, ◌++◌, arith, All, All-append, Bool-cases, inl, inr,
  subst, sym, ap, ◌==◌,
}
use capture.Text.{Str, c_str}
use capture.Outcome.{finished}
use capture.Outcome.Rules.{finished-injective, >>=-eq-finished}
use capture.Logger.{
  Level, trace, debug, info, warn, err, critical, off, severity, Logger, Spdlog, init, set_level,
  log, log_trace, say, say_all, start_log, LogLine, log_line, print_line, stream_line, printf,
  put_all, new_stream, flush_stream, close_stream,
}

-- What spdlog promises: it writes no message that is less severe than the level it is at.
pub record IsFilter (spdlog : Spdlog) : Type 0 where
  pub filters : (at lvl : Level) → spdlog.should_log at lvl ≡ true → severity at ≤ severity lvl

-- spdlog is at the level of errors, and nothing below it has been written.
pub record IsQuiet (l : Logger) : Type 0 where
  pub spdlog_level : l.spdlog_level ≡ err
  pub written : All (λ m. 4 ≤ severity m.0) l.written

module _ (spdlog : Spdlog) (filter : IsFilter spdlog) where
  log-IsQuiet :
      (lvl : Level) (text : Str) (l : Logger) → IsQuiet l → IsQuiet (log spdlog lvl text l)
  unfolding log
  log-IsQuiet lvl text l h = elim (Bool-cases (spdlog.should_log l.spdlog_level lvl)) [
    | inr e ↦ rw (e, log) h
    | inl e ↦
        rw (e, log)
          (record {
            spdlog_level = h.spdlog_level;
            written =
                All-append (λ m. 4 ≤ severity m.0) l.written ((lvl, text) ∷ []) h.written
                  (
                    subst (λ v. severity v ≤ severity lvl) h.spdlog_level
                        (filter.filters l.spdlog_level lvl e),
                    tt,
                  );
          })
  ]

  log_trace-IsQuiet : (text : Str) (l : Logger) → IsQuiet l → IsQuiet (log_trace spdlog text l)
  unfolding log_trace
  log_trace-IsQuiet text l h = elim (Bool-cases (severity l.log_level == severity trace)) [
    | inl e ↦ rw (e, log_trace) (log-IsQuiet trace text l h)
    | inr e ↦ rw (e, log_trace) h
  ]

  say-IsQuiet : (m : LogLine) (l : Logger) → IsQuiet l → IsQuiet (say spdlog m l)
  unfolding say printf close_stream flush_stream
  say-IsQuiet (log_line trace text) l h = log_trace-IsQuiet text l h
  say-IsQuiet (log_line debug text) l h = log-IsQuiet debug text l h
  say-IsQuiet (log_line info text) l h = log-IsQuiet info text l h
  say-IsQuiet (log_line warn text) l h = log-IsQuiet warn text l h
  say-IsQuiet (log_line err text) l h = log-IsQuiet err text l h
  say-IsQuiet (log_line critical text) l h = log-IsQuiet critical text l h
  say-IsQuiet (log_line off text) l h = log-IsQuiet off text l h
  say-IsQuiet (print_line lvl text) l h = log-IsQuiet lvl (c_str text) l h
  say-IsQuiet (stream_line lvl texts) l h =
      let st = put_all texts (new_stream lvl []) in
      log-IsQuiet st.lvl (c_str (st.prefix ++ st.buffer)) l h

  pub say_all-IsQuiet : (ms : List LogLine) (l : Logger) → IsQuiet l → IsQuiet (say_all spdlog ms l)
  unfolding say_all
  say_all-IsQuiet [] l h = h
  say_all-IsQuiet (m ∷ ms) l h = say_all-IsQuiet ms (say spdlog m l) (say-IsQuiet m l h)

-- Init changes no message that is written.
init-written :
    (spdlog : Spdlog) (path : Str) (console : Bool) (l : Logger) (r : Bool × Logger)
    → init spdlog path console l ≡ finished r
    → r.1.written ≡ l.written
unfolding init
init-written spdlog path console l r e = elim (Bool-cases l.is_inited) [
  | inl x ↦ ap (λ q. q.1.written) (sym (finished-injective _ r (rw (x, init) at e)))
  | inr x ↦ elim (Bool-cases (spdlog.opens path)) [
    | inl y ↦ ap (λ q. q.1.written) (sym (finished-injective _ r (rw (x, init, y) at e)))
    | inr y ↦ absurd (ground (arith, e, x, y))
  ]
]

-- If spdlog writes no message below its level: after the logger has been started as CaptureCxx::Init does it,
-- from a state in which nothing less severe than an error has been written, whatever the program logs, only
-- errors and fatal errors are written.
pub start_log_quiet :
    (spdlog : Spdlog) (path : Str) (l r : Logger) (ms : List LogLine)
    → IsFilter spdlog
    → start_log spdlog path l ≡ finished r
    → All (λ m. 4 ≤ severity m.0) l.written
    → All (λ m. 4 ≤ severity m.0) (say_all spdlog ms r).written
unfolding start_log set_level
start_log_quiet spdlog path l r ms filter e h =
    let q = >>=-eq-finished (init spdlog path true l) _ e in
    let w = init-written spdlog path true l q.0 q.1 in
    subst (λ t. All (λ m. 4 ≤ severity m.0) (say_all spdlog ms t).written)
      (finished-injective _ r q.2)
      (say_all-IsQuiet spdlog filter ms (set_level err q.0.1) (record {
        spdlog_level = refl;
        written = subst (All (λ m. 4 ≤ severity m.0)) (sym w) h;
      })).written
