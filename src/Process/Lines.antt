-- ===== src/Process/Lines.antt =====
-- The lines of /proc/<pid>/status in the layout of proc(5), and what the loop of `ParseStatus` of
-- src/cap_process.cpp keeps of them.
use capture.Prelude.{
  inl, inr, length, ℕ, ◌<◌, ◌%◌, ◌^◌, ◌≡◌, refl, Bool, true, false, ◌&&◌, [], ◌∷◌, ◌++◌, arith,
  length, str_eq, ap, ◌∙◌, not,
}
use capture.Text.{Str, codes, to_string}
use capture.Scan.{sscanf, lits, nonzero, scan, dec, udec}
use capture.Scan.Keys.{is_key, sscanf-other, number_line, sscanf-number_line, nothing, is_gap}
use capture.Scan.Words.{is_word, SpaceNext, sscanf-word_line}
use capture.Scan.Numbers.{blanks, is_break}
use capture.Scan.{Scanned}
use capture.ProcessFields.{
  CapProcess, status_line, replaced, name_format, rss_format, gid_format, status_scans, uid_format,
  or_else, first_u32,
}

-- A line of the status file: the first word of the name with anything behind it, the resident memory in kB behind `n` blanks, the four user and the
-- four group numbers, of which the first counts, and any other line "key: …".
pub data StatusLine : Type 0 where
  name_line : Str → Str → StatusLine
  rss_line : ℕ → ℕ → StatusLine
  uid_line gid_line : ℕ → Str → StatusLine
  other_line : Str → Str → StatusLine

abbrev pub status_text : StatusLine → Str
status_text (name_line w rest) = codes "Name:" ++ (9 ∷ (w ++ rest))
status_text (rss_line n m) = number_line (codes "VmRSS") 9 n m (codes " kB")
status_text (uid_line u rest) = number_line (codes "Uid") 9 0 u (9 ∷ rest)
status_text (gid_line g rest) = number_line (codes "Gid") 9 0 g (9 ∷ rest)
status_text (other_line k rest) = k ++ (58 ∷ rest)

-- A key that ParseStatus does not look for.
abbrev pub other_key : Str → Bool
other_key k =
    is_key k
    && (not (str_eq (codes "Name") k)
        && (not (str_eq (codes "VmRSS") k)
            && (not (str_eq (codes "Uid") k) && not (str_eq (codes "Gid") k))))

abbrev pub IsStatusLine : StatusLine → Type 0
IsStatusLine (name_line w rest) =
    (is_word w ≡ true) × (0 < length w) × (length w < 128) × SpaceNext rest
IsStatusLine (rss_line n m) = m < 2 ^ 63
IsStatusLine (uid_line u rest) = u < 2 ^ 32
IsStatusLine (gid_line g rest) = g < 2 ^ 32
IsStatusLine (other_line k rest) = other_key k ≡ true

-- What a line says of a process; the first name stays.
abbrev pub stated : StatusLine → CapProcess → CapProcess
stated (name_line w rest) p = record p { name = elim p.name [ [] ↦ w | c ∷ s ↦ c ∷ s ] }
stated (rss_line n m) p = record p { memory = m }
stated (uid_line u rest) p = record p { uid = u }
stated (gid_line g rest) p = record p { gid = g }
stated (other_line k rest) p = p

other_key-parts :
    (k : Str)
    → other_key k ≡ true
    → (is_key k ≡ true)
      × (str_eq (codes "Name") k ≡ false)
      × (str_eq (codes "VmRSS") k ≡ false)
      × (str_eq (codes "Uid") k ≡ false)
      × (str_eq (codes "Gid") k ≡ false)
other_key-parts k h = ground arith

-- The scans for the keys that a line does not have store nothing.
module _ (k rest : Str) (h : is_key k ≡ true) where
  unnamed : str_eq (codes "Name") k ≡ false → sscanf (k ++ (58 ∷ rest)) name_format ≡ nothing
  unfolding lits is_key
  unnamed e = sscanf-other (codes "Name") k _ rest refl h e

  no_memory : str_eq (codes "VmRSS") k ≡ false → sscanf (k ++ (58 ∷ rest)) rss_format ≡ nothing
  unfolding lits is_key
  no_memory e = sscanf-other (codes "VmRSS") k _ rest refl h e

  no_user : str_eq (codes "Uid") k ≡ false → sscanf (k ++ (58 ∷ rest)) uid_format ≡ nothing
  unfolding lits is_key
  no_user e = sscanf-other (codes "Uid") k _ rest refl h e

  no_group : str_eq (codes "Gid") k ≡ false → sscanf (k ++ (58 ∷ rest)) gid_format ≡ nothing
  unfolding lits is_key
  no_group e = sscanf-other (codes "Gid") k _ rest refl h e

-- The fields after the four scans of a line, and of a line with no name.
module _ (p : CapProcess) (m u g : Scanned) where
  abbrev unnamed_scans : CapProcess
  unnamed_scans = record p {
    memory = replaced m p.memory;
    uid = or_else (first_u32 u.values) p.uid;
    gid = or_else (first_u32 g.values) p.gid;
  }

  status_scans-nothing : status_scans p nothing m u g ≡ unnamed_scans
  unfolding status_scans nonzero
  status_scans-nothing = ap (λ x. record unnamed_scans { name = x }) (kept p.name)
    where
      kept : (s : Str) → elim s as (λ x. Str) [ [] ↦ [] | c ∷ t ↦ c ∷ t ] ≡ s
      kept [] = refl
      kept (c ∷ s) = refl

module _ (p : CapProcess) (b : Str) (m u g : Scanned) (em : sscanf b rss_format ≡ m)
    (eu : sscanf b uid_format ≡ u) (eg : sscanf b gid_format ≡ g) where
  named_line : (n : Scanned) → sscanf b name_format ≡ n → status_line p b ≡ status_scans p n m u g
  unfolding status_line
  named_line n en i = status_scans p (en i) (em i) (eu i) (eg i)

  unnamed_line : sscanf b name_format ≡ nothing → status_line p b ≡ unnamed_scans p m u g
  unfolding status_line
  unnamed_line en = (λ i. status_scans p (en i) (em i) (eu i) (eg i)) ∙ status_scans-nothing p m u g

u32 : (n : ℕ) → n < 2 ^ 32 → n % 2 ^ 32 ≡ n
u32 n h = omega arith

-- A line of the status file leaves in the fields what it states, and nothing else.
pub status_line-stated :
    (p : CapProcess) (l : StatusLine) → IsStatusLine l → status_line p (status_text l) ≡ stated l p
unfolding lits is_key str_eq is_gap is_break status_scans replaced nonzero scan
status_line-stated p (name_line w rest) h =
    let t = 9 ∷ (w ++ rest) in
    let k = codes "Name" in
    named_line p _ _ _ _ (no_memory k t refl refl) (no_user k t refl refl) (no_group k t refl refl)
      _ (sscanf-word_line k 9 6 w rest refl refl h.0 h.1 h.3)
status_line-stated p (rss_line n m) h =
    let t = 9 ∷ blanks n (to_string m ++ codes " kB") in
    let k = codes "VmRSS" in
    unnamed_line p _ _ _ _
      (sscanf-number_line dec (inl refl) k 9 n m (codes " kB") refl refl h refl 9
        (lits (codes " kB")))
      (no_user k t refl refl) (no_group k t refl refl) (unnamed k t refl refl)
status_line-stated p (uid_line u rest) h =
    let t = 9 ∷ (to_string u ++ (9 ∷ rest)) in
    let k = codes "Uid" in
    unnamed_line p _ _ _ _ (no_memory k t refl refl)
      (sscanf-number_line udec (inr refl) k 9 0 u (9 ∷ rest) refl refl (omega arith) refl 0 [])
      (no_group k t refl refl) (unnamed k t refl refl)
    ∙ ap (λ n. record p { uid = n }) (u32 u h)
status_line-stated p (gid_line g rest) h =
    let t = 9 ∷ (to_string g ++ (9 ∷ rest)) in
    let k = codes "Gid" in
    unnamed_line p _ _ _ _ (no_memory k t refl refl) (no_user k t refl refl)
      (sscanf-number_line udec (inr refl) k 9 0 g (9 ∷ rest) refl refl (omega arith) refl 0 [])
      (unnamed k t refl refl)
    ∙ ap (λ n. record p { gid = n }) (u32 g h)
status_line-stated p (other_line k rest) h =
    let q = other_key-parts k h in
    unnamed_line p _ _ _ _ (no_memory k rest q.0 q.2) (no_user k rest q.0 q.3)
      (no_group k rest q.0 q.4) (unnamed k rest q.0 q.1)
