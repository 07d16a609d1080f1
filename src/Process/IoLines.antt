-- ===== src/Process/IoLines.antt =====
-- The lines of /proc/<pid>/io in the layout of proc(5), and what the loop of `ParseIo` of
-- src/cap_process.cpp keeps of them.
use capture.Prelude.{
  ℕ, ◌<◌, ◌^◌, ◌≡◌, refl, Bool, true, false, ◌&&◌, not, List, [], ◌∷◌, ◌++◌, arith, str_eq, inl,
}
use capture.Text.{Str, codes, to_string}
use capture.Scan.{sscanf, lits, scan, nonzero, Scanned, dec}
use capture.Scan.Keys.{is_key, is_gap, nothing, sscanf-other, number_line, sscanf-number_line}
use capture.ProcessFields.{CapProcess, io_line, io_scans, replaced, rchar_format, wchar_format}

-- The bytes read, the bytes written, and any other line "key: …".
pub data IoLine : Type 0 where
  rchar_line wchar_line : ℕ → IoLine
  io_other : Str → Str → IoLine

abbrev pub io_text : IoLine → Str
io_text (rchar_line n) = number_line (codes "rchar") 32 0 n []
io_text (wchar_line n) = number_line (codes "wchar") 32 0 n []
io_text (io_other k rest) = k ++ (58 ∷ rest)

abbrev pub other_io_key : Str → Bool
other_io_key k = is_key k && (not (str_eq (codes "rchar") k) && not (str_eq (codes "wchar") k))

abbrev pub IsIoLine : IoLine → Type 0
IsIoLine (rchar_line n) = n < 2 ^ 63
IsIoLine (wchar_line n) = n < 2 ^ 63
IsIoLine (io_other k rest) = other_io_key k ≡ true

abbrev pub io_stated : IoLine → CapProcess → CapProcess
io_stated (rchar_line n) p = record p { io_read = n }
io_stated (wchar_line n) p = record p { io_write = n }
io_stated (io_other k rest) p = p

abbrev pub io_told : List IoLine → CapProcess → CapProcess
io_told [] p = p
io_told (l ∷ ls) p = io_told ls (io_stated l p)

module _ (k rest : Str) (h : is_key k ≡ true) where
  not_read : str_eq (codes "rchar") k ≡ false → sscanf (k ++ (58 ∷ rest)) rchar_format ≡ nothing
  unfolding lits is_key
  not_read e = sscanf-other (codes "rchar") k _ rest refl h e

  not_written : str_eq (codes "wchar") k ≡ false → sscanf (k ++ (58 ∷ rest)) wchar_format ≡ nothing
  unfolding lits is_key
  not_written e = sscanf-other (codes "wchar") k _ rest refl h e

other_io_key-parts :
    (k : Str)
    → other_io_key k ≡ true
    → (is_key k ≡ true) × (str_eq (codes "rchar") k ≡ false) × (str_eq (codes "wchar") k ≡ false)
other_io_key-parts k h = ground arith

io_line-scans :
    (p : CapProcess) (b : Str) (r w : Scanned)
    → sscanf b rchar_format ≡ r
    → sscanf b wchar_format ≡ w
    → io_line p b ≡ io_scans p r w
unfolding io_line
io_line-scans p b r w er ew i = io_scans p (er i) (ew i)

-- A line of the file io leaves in the fields what it states, and nothing else.
pub io_line-stated :
    (p : CapProcess) (l : IoLine) → IsIoLine l → io_line p (io_text l) ≡ io_stated l p
unfolding lits is_key str_eq is_gap io_scans replaced nonzero scan
io_line-stated p (rchar_line n) h =
    io_line-scans p _ _ _
      (sscanf-number_line dec (inl refl) (codes "rchar") 32 0 n [] refl refl h tt 0 [])
      (not_written (codes "rchar") (32 ∷ (to_string n ++ [])) refl refl)
io_line-stated p (wchar_line n) h =
    io_line-scans p _ _ _ (not_read (codes "wchar") (32 ∷ (to_string n ++ [])) refl refl)
      (sscanf-number_line dec (inl refl) (codes "wchar") 32 0 n [] refl refl h tt 0 [])
io_line-stated p (io_other k rest) h =
    let q = other_io_key-parts k h in
    io_line-scans p _ _ _ (not_read k rest q.0 q.1) (not_written k rest q.0 q.2)
