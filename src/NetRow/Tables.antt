-- ===== src/NetRow/Tables.antt =====
-- A file of /proc/net as a whole: its rows one after the other, and which inode a key leads to.
use capture.Prelude.{
  ℕ, ◌%◌, ◌^◌, ◌≡◌, refl, ◌∙◌, Bool, ◌&&◌, ◌||◌, not, List, [], ◌∷◌, ◌++◌, Option, none, some,
  arith, ◌==◌, if◌then◌else◌, All, map, Dict, find, text_eq, str_eq, Option-cases, inl, inr,
}
use capture.Text.{Str}
use capture.Inet.{Inet}
use capture.Device.{CapDevice}
use capture.Scan.{sscanf}
use capture.Stream.Unlines.{fold}
use capture.NetRow.{Row, row_format, row_values, row_key, row_ends, add_row, parse_buffer}
use capture.NetRow.Columns.{Columns, IsRow, row_text}
use capture.NetRow.RoundTrip.{stating, as_read, IsSocket, parse_buffer-as_read}
use capture.NetRow.Keys.{is_device_key, find-add_row}

-- A line of a table: a heading, or anything that is no row, and a row of a socket with its other columns.
pub data TableLine : Type 0 where
  heading : Str → TableLine
  socket_line : Columns → Row → TableLine

abbrev pub table_text : TableLine → Str
table_text (heading h) = h
table_text (socket_line c r) = row_text (stating c r)

abbrev pub IsTableLine : TableLine → Type 0
IsTableLine (heading h) = row_values (sscanf h row_format).values ≡ none
IsTableLine (socket_line c r) = IsRow c × IsSocket r

-- The sockets of a table, with their inodes as `%ld` reads them.
abbrev pub sockets : List TableLine → List Row
sockets [] = []
sockets (heading h ∷ ls) = sockets ls
sockets (socket_line c r ∷ ls) = as_read r ∷ sockets ls

-- The first answer, or else the second.
abbrev pub or_find : Option ℕ → Option ℕ → Option ℕ
or_find none o = o
or_find (some i) o = some i

module _ (inet : Inet) (ds : List CapDevice) where
  abbrev pub add_rows : List Row → Dict Str ℕ → Dict Str ℕ
  add_rows [] m = m
  add_rows (r ∷ rs) m = add_rows rs (add_row inet ds r m)

  -- A row with an inode states its own key and those of the devices.
  unfoldable pub states : Row → Str → Bool
  states r k =
      not (r.inode == 0)
      && (is_device_key (row_ends inet r) r ds k || str_eq (row_key (row_ends inet r) r) k)

  -- The inode of the last row that states a key.
  unfoldable pub latest_row : List Row → Str → Option ℕ
  latest_row [] k = none
  latest_row (r ∷ rs) k = elim (latest_row rs k) [
    | some i ↦ some i
    | none ↦ if states r k then some (r.inode % 2 ^ 32) else none
  ]

  find-add_row-states :
      (r : Row) (k : Str) (m : Dict Str ℕ)
      → find k (add_row inet ds r m) ≡ (if states r k then some (r.inode % 2 ^ 32) else find k m)
  unfolding states
  find-add_row-states r k m = ground (arith, find-add_row inet ds r k m)

  -- After rows a key leads where the last row that states it says.
  pub find-add_rows :
      (rs : List Row) (k : Str) (m : Dict Str ℕ)
      → find k (add_rows rs m) ≡ or_find (latest_row rs k) (find k m)
  unfolding latest_row
  find-add_rows [] k m = refl
  find-add_rows (r ∷ rs) k m = elim (Option-cases (latest_row rs k)) [
    | inr (i, e) ↦ find-add_rows rs k (add_row inet ds r m) ∙ rw e refl
    | inl e ↦
        find-add_rows rs k (add_row inet ds r m) ∙ rw e (find-add_row-states r k m ∙ ground arith)
  ]

  pub add_rows-append :
      (rs qs : List Row) (m : Dict Str ℕ) → add_rows (rs ++ qs) m ≡ add_rows qs (add_rows rs m)
  add_rows-append [] qs m = refl
  add_rows-append (r ∷ rs) qs m = add_rows-append rs qs (add_row inet ds r m)

  heading-skipped :
      (h : Str) (m : Dict Str ℕ)
      → row_values (sscanf h row_format).values ≡ none
      → parse_buffer inet ds m h ≡ m
  unfolding parse_buffer
  heading-skipped h m e = rw (e, parse_buffer) refl

  -- The loop over the lines of a table adds its sockets.
  pub fold-table :
      (ls : List TableLine) (m : Dict Str ℕ)
      → All IsTableLine ls
      → fold (parse_buffer inet ds) m (map table_text ls) ≡ add_rows (sockets ls) m
  unfolding fold
  fold-table [] m h = refl
  fold-table (heading t ∷ ls) m h = rw (heading-skipped t m h.0, fold) (fold-table ls m h.1)
  fold-table (socket_line c r ∷ ls) m h =
      rw (parse_buffer-as_read inet ds m c r h.0.0 h.0.1, fold)
        (fold-table ls (add_row inet ds (as_read r) m) h.1)
