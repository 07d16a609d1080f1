-- ===== src/NetRow/Columns.antt =====
-- Rows of /proc/net as texts in the layout of proc(5), for `CapInodeHelper::ParseBuffer` of
-- src/cap_inode_helper.cpp.
use capture.Prelude.{ℕ, ◌<◌, ◌≤◌, ◌≡◌, refl, ◌∷◌, ◌++◌, length}
use capture.Text.{Str, c_str}
use capture.Scan.{dec, hex, Conversion}
use capture.Scan.Numbers.{IsDigits, blanks}
use capture.Scan.Fields.{c_str-digits, c_str-blanks, c_str_blank, c_str_colon}

-- The columns of a row as texts: "sl: local:port remote:port st tx:rx tr:when retr uid timeout inode …",
-- with blanks before `sl`, `uid` and `timeout`, and anything behind the blank that follows the inode.
pub record Columns : Type 0 where
  pub sl_pad : ℕ
  pub sl : Str
  pub local : Str
  pub local_port : Str
  pub remote : Str
  pub remote_port : Str
  pub st : Str
  pub tx : Str
  pub rx : Str
  pub tr : Str
  pub when : Str
  pub retr : Str
  pub uid_pad : ℕ
  pub uid : Str
  pub timeout_pad : ℕ
  pub timeout : Str
  pub inode : Str
  pub tail : Str

-- A column of digits.
abbrev pub IsColumn : Conversion → Str → Type 0
IsColumn k s = IsDigits k s × (0 < length s)

pub record IsRow (c : Columns) : Type 0 where
  pub sl : IsColumn dec c.sl
  pub local : IsColumn hex c.local
  pub local_size : length c.local ≤ 64
  pub local_port : IsColumn hex c.local_port
  pub remote : IsColumn hex c.remote
  pub remote_size : length c.remote ≤ 64
  pub remote_port : IsColumn hex c.remote_port
  pub st : IsColumn hex c.st
  pub tx : IsColumn hex c.tx
  pub rx : IsColumn hex c.rx
  pub tr : IsColumn hex c.tr
  pub when : IsColumn hex c.when
  pub retr : IsColumn hex c.retr
  pub uid : IsColumn dec c.uid
  pub timeout : IsColumn dec c.timeout
  pub inode : IsColumn dec c.inode

-- The columns from the inode on, from the state on, and the row.
abbrev pub owner_part : Columns → Str → Str
owner_part c tail =
    32
    ∷ blanks c.uid_pad
        (c.uid ++ (32 ∷ blanks c.timeout_pad (c.timeout ++ (32 ∷ (c.inode ++ (32 ∷ tail))))))

abbrev pub state_part : Columns → Str → Str
state_part c rest =
    32
    ∷ (c.st
        ++ (32
            ∷ (c.tx
                ++ (58 ∷ (c.rx ++ (32 ∷ (c.tr ++ (58 ∷ (c.when ++ (32 ∷ (c.retr ++ rest)))))))))))

abbrev pub ends_part : Columns → Str → Str
ends_part c rest = blanks c.sl_pad (
    c.sl
    ++ (58
        ∷ 32
        ∷ (c.local
            ++ (58 ∷ (c.local_port ++ (32 ∷ (c.remote ++ (58 ∷ (c.remote_port ++ rest)))))))))

abbrev pub row_text : Columns → Str
row_text c = ends_part c (state_part c (owner_part c c.tail))

module _ (c : Columns) (h : IsRow c) where
  pub c_str-owner : (tail : Str) → c_str (owner_part c tail) ≡ owner_part c (c_str tail)
  c_str-owner tail =
      simp
        (
          c_str_blank,
          c_str-blanks,
          c_str-digits dec c.uid h.uid.0,
          c_str-digits dec c.timeout h.timeout.0,
          c_str-digits dec c.inode h.inode.0,
        )
        refl

  pub c_str-state : (rest : Str) → c_str (state_part c rest) ≡ state_part c (c_str rest)
  c_str-state rest =
      simp
        (
          c_str_blank,
          c_str_colon,
          c_str-digits hex c.st h.st.0,
          c_str-digits hex c.tx h.tx.0,
          c_str-digits hex c.rx h.rx.0,
          c_str-digits hex c.tr h.tr.0,
          c_str-digits hex c.when h.when.0,
          c_str-digits hex c.retr h.retr.0,
        )
        refl

  pub c_str-ends : (rest : Str) → c_str (ends_part c rest) ≡ ends_part c (c_str rest)
  c_str-ends rest =
      simp
        (
          c_str_blank,
          c_str_colon,
          c_str-blanks,
          c_str-digits dec c.sl h.sl.0,
          c_str-digits hex c.local h.local.0,
          c_str-digits hex c.local_port h.local_port.0,
          c_str-digits hex c.remote h.remote.0,
          c_str-digits hex c.remote_port h.remote_port.0,
        )
        refl
