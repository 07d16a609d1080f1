-- ===== src/Process/StatLine.antt =====
-- `ParseStat` of src/cap_process.cpp on the line of /proc/<pid>/stat in the layout of proc(5).
use capture.Prelude.{
  ℕ, ◌+◌, ◌-◌, ◌<◌, ◌%◌, ◌^◌, ◌≡◌, refl, Bool, true, false, List, [], ◌∷◌, ◌++◌, none, length, ap,
  ◌∙◌, leb, sym, inl,
}
use capture.Text.{Str, c_str, to_string}
use capture.Scan.{Scanned, nonzero, Directive, dec, space, num, scan, sscanf, skip_int, int, stored}
use capture.Scan.Numbers.{break_blank, skip_space-digits}
use capture.Scan.Signs.{convert-letter, skip_space-letter}
use capture.Scan.Printed.{to_string-IsDigits, to_string_some, convert-to_string}
use capture.Scan.Fields.{
  values-space, scan-mismatch, scan-skip, scan-conv, c_str-digits, c_str_blank, c_str_minus,
  c_str-letter,
}
use capture.Scan.Words.{Dense, scan-blank, scan-skip_word, is_word, skip_space-word, c_str-word}
use capture.ProcessFields.{CapProcess, skip_ints, stat_format, stat_line, add_times}
use capture.Process.Times.{
  signed_text, ints_text, convert-signed, Dense-ints, scan-skip_ints, values-skip_ints,
}

-- The line: the process, its name in parentheses, its state, ten numbers, the two times, and more.
pub record StatLine : Type 0 where
  pub pid : ℕ
  pub name : Str
  pub status : Str
  pub before : List (Bool × ℕ)
  pub utime : ℕ
  pub stime : ℕ
  pub more : Str

pub record IsStatLine (l : StatLine) : Type 0 where
  pub name : (is_word l.name ≡ true) × (0 < length l.name)
  pub status : (is_word l.status ≡ true) × (0 < length l.status)
  pub before : length l.before ≡ 10
  pub utime : l.utime < 2 ^ 63
  pub stime : l.stime < 2 ^ 63

abbrev times_text : StatLine → Str → Str
times_text l more = to_string l.utime ++ (32 ∷ (to_string l.stime ++ (32 ∷ more)))

abbrev pub stat_text : StatLine → Str → Str
stat_text l more =
    to_string l.pid
    ++ (32 ∷ (l.name ++ (32 ∷ (l.status ++ (32 ∷ ints_text l.before (times_text l more))))))

c_str-signed : (i : Bool × ℕ) (t : Str) → c_str (signed_text i ++ t) ≡ signed_text i ++ c_str t
c_str-signed (true, n) t =
    c_str_minus (to_string n ++ t)
    ∙ ap (◌∷◌ 45) (c_str-digits dec (to_string n) (to_string-IsDigits n) t)
c_str-signed (false, n) t = c_str-digits dec (to_string n) (to_string-IsDigits n) t

c_str-ints : (is : List (Bool × ℕ)) (t : Str) → c_str (ints_text is t) ≡ ints_text is (c_str t)
c_str-ints [] t = refl
c_str-ints (i ∷ is) t =
    c_str-signed i (32 ∷ ints_text is t)
    ∙ ap (λ s. signed_text i ++ s) (c_str_blank (ints_text is t) ∙ ap (◌∷◌ 32) (c_str-ints is t))

c_str-number : (n : ℕ) (t : Str) → c_str (to_string n ++ t) ≡ to_string n ++ c_str t
c_str-number n t = c_str-digits dec (to_string n) (to_string-IsDigits n) t

c_str-words : (w : Str) → is_word w ≡ true → (t : Str) → c_str (w ++ t) ≡ w ++ c_str t
c_str-words w h t = c_str-word w t h

c_str-stat :
    (l : StatLine) (more : Str) → IsStatLine l → c_str (stat_text l more) ≡ stat_text l (c_str more)
c_str-stat l more h =
    simp
      (
        c_str_blank,
        c_str-number,
        c_str-ints,
        c_str-words l.name h.name.0,
        c_str-words l.status h.status.0,
      )
      refl

Dense-number : (n : ℕ) (t : Str) → Dense (to_string n ++ t)
Dense-number n t = skip_space-digits dec (to_string n) t (to_string-IsDigits n) (to_string_some n)

scan-skip_number :
    (n : ℕ) (fmt : List Directive) (t : Str)
    → Dense t
    → scan (skip_int ∷ space ∷ fmt) (to_string n ++ (32 ∷ t)) ≡ scan fmt t
scan-skip_number n fmt t d =
    let c = convert-signed (false, n) t in
    scan-skip dec none (to_string n ++ (32 ∷ t)) _ c.0 _ c.1 ∙ scan-blank fmt t d

scan-int :
    (n : ℕ) (fmt : List Directive) (t : Str)
    → n < 2 ^ 63
    → scan (int ∷ fmt) (to_string n ++ (32 ∷ t)) ≡ stored (num n) (scan fmt (32 ∷ t))
scan-int n fmt t h =
    scan-conv dec none (to_string n ++ (32 ∷ t)) (32 ∷ t) (num n) fmt
      (convert-to_string dec 0 n (32 ∷ t) (inl refl) break_blank h)

module _ (l : StatLine) (h : IsStatLine l) where
  abbrev times_format : List Directive
  times_format = int ∷ space ∷ int ∷ space ∷ skip_ints 24 []

  values-times :
      (more : Str) → (scan times_format (times_text l more)).values ≡ num l.utime ∷ num l.stime ∷ []
  values-times more =
      let t = to_string l.stime ++ (32 ∷ more) in
      rw
        (
          scan-int l.utime (space ∷ int ∷ space ∷ skip_ints 24 []) t h.utime,
          scan-blank (int ∷ space ∷ skip_ints 24 []) t (Dense-number l.stime (32 ∷ more)),
          scan-int l.stime (space ∷ skip_ints 24 []) more h.stime,
        )
        (ap (λ vs. num l.utime ∷ num l.stime ∷ vs)
          (values-space _ (values-skip_ints 24) (32 ∷ more)))

  scan-stat :
      (more : Str) → scan stat_format (stat_text l more) ≡ scan times_format (times_text l more)
  scan-stat more =
      let ts = times_text l more in
      let dense = Dense-ints l.before ts (Dense-number l.utime _) in
      scan-skip_number l.pid _ _ (skip_space-word l.name _ h.name.0 h.name.1)
      ∙ (scan-skip_word l.name _ _ h.name.0 h.name.1
            (skip_space-word l.status _ h.status.0 h.status.1)
          ∙ (scan-skip_word l.status _ _ h.status.0 h.status.1 dense
              ∙ (ap (λ n. scan (skip_ints n times_format) (ints_text l.before ts)) (sym h.before)
                  ∙ scan-skip_ints l.before times_format ts (Dense-number l.utime _))))

  values-stat : (sscanf (stat_text l l.more) stat_format).values ≡ num l.utime ∷ num l.stime ∷ []
  unfolding sscanf
  values-stat =
      ap (λ t. (scan stat_format t).values) (c_str-stat l l.more h)
      ∙ (ap (λ r. r.values) (scan-stat (c_str l.more)) ∙ values-times (c_str l.more))

add_times-two :
    (p : CapProcess) (r : Scanned) (u s : ℕ)
    → r.values ≡ num u ∷ num s ∷ []
    → add_times r p ≡ record p {
      delta_cpu = ((u + s) % 2 ^ 64 + 2 ^ 64 - p.cpu) % 2 ^ 64;
      cpu = (u + s) % 2 ^ 64;
    }
unfolding add_times nonzero
add_times-two p r u s e = ap (λ vs. add_times (record { values = vs; ended = r.ended }) p) e

add_times-nothing : (p : CapProcess) → add_times (record { values = []; ended = false }) p ≡ p
unfolding add_times nonzero
add_times-nothing p = refl

-- A line of the file stat in the layout of proc(5), with a name without white space, sets `cpu` to the sum of
-- its user and system times and `deltaCpu` to what this adds to the old `cpu`, both modulo 2 ^ 64.
pub stat_line-times :
    (p : CapProcess) (l : StatLine)
    → IsStatLine l
    → stat_line p (stat_text l l.more) ≡ record p {
      delta_cpu = ((l.utime + l.stime) % 2 ^ 64 + 2 ^ 64 - p.cpu) % 2 ^ 64;
      cpu = (l.utime + l.stime) % 2 ^ 64;
    }
unfolding stat_line
stat_line-times p l h = add_times-two p _ l.utime l.stime (values-stat l h)

-- A line with two words, of the name or of its parts, before a third word.
abbrev pub blank_name_text : ℕ → Str → Str → Str → Str
blank_name_text pid w v third = to_string pid ++ (32 ∷ (w ++ (32 ∷ (v ++ (32 ∷ third)))))

module _ (pid : ℕ) (w v : Str) (c : ℕ) (rest : Str) (hw : is_word w ≡ true) (pw : 0 < length w)
    (hv : is_word v ≡ true) (pv : 0 < length v) (hc : leb 65 c ≡ true) where
  c_str-blank_name :
      c_str (blank_name_text pid w v (c ∷ rest)) ≡ blank_name_text pid w v (c ∷ c_str rest)
  c_str-blank_name =
      simp (c_str_blank, c_str-number, c_str-words w hw, c_str-words v hv, c_str-letter c rest hc)
        refl

  scan-blank_name :
      (r : Str)
      → scan stat_format (blank_name_text pid w v (c ∷ r)) ≡ record { values = []; ended = false }
  scan-blank_name r =
      scan-skip_number pid _ _ (skip_space-word w _ hw pw)
      ∙ (scan-skip_word w _ _ hw pw (skip_space-word v _ hv pv)
          ∙ (scan-skip_word v _ _ hv pv (skip_space-letter c r hc)
              ∙ scan-mismatch dec none (c ∷ r) _ (convert-letter c r hc)))

  sscanf-blank_name :
      sscanf (blank_name_text pid w v (c ∷ rest)) stat_format
      ≡ record { values = []; ended = false }
  unfolding sscanf
  sscanf-blank_name = ap (scan stat_format) c_str-blank_name ∙ scan-blank_name (c_str rest)

-- A line of the file stat with two words behind the number of the process, and a third that begins with a
-- letter, as the state does behind a name of two words, changes nothing: the times are not read.
pub stat_line_blank :
    (p : CapProcess) (pid : ℕ) (w v : Str) (c : ℕ) (rest : Str)
    → is_word w ≡ true
    → 0 < length w
    → is_word v ≡ true
    → 0 < length v
    → leb 65 c ≡ true
    → stat_line p (blank_name_text pid w v (c ∷ rest)) ≡ p
unfolding stat_line
stat_line_blank p pid w v c rest hw pw hv pv hc =
    ap (λ r. add_times r p) (sscanf-blank_name pid w v c rest hw pw hv pv hc) ∙ add_times-nothing p
