-- ===== src/NetRow/Reading.antt =====
-- `CapInodeHelper::ParseBuffer` of src/cap_inode_helper.cpp on the rows that proc(5) describes.
use capture.Prelude.{
  ℕ, ◌%◌, ◌^◌, ◌≡◌, refl, List, [], ◌∷◌, none, some, Dict, ap, inl, inr, suc, false,
}
use capture.Text.{Str}
use capture.Scan.{
  clamp, dec, hex, num, text, scan, sscanf, lits, lit, space, skip, conv, word, hex_set, stored,
}
use capture.Scan.Numbers.{value_of, break_blank, break_colon}
use capture.Scan.Fields.{
  scan-lit, skip_number, conv_number, space_number, conv_hex_set, values-skip_word,
}
use capture.Inet.{Inet}
use capture.Device.{CapDevice}
use capture.NetRow.{row_format, row_values, add_row, parse_buffer, Directive, false}
use capture.NetRow.Columns.{
  Columns, IsRow, row_text, owner_part, state_part, ends_part, c_str-owner, c_str-state, c_str-ends,
}

module _ (c : Columns) (h : IsRow c) where
  scan-ends :
      (fmt : List Directive) (rest : Str)
      → scan
          (skip dec none
            ∷ lit 58
            ∷ space
            ∷ conv hex_set (some 64)
            ∷ lit 58
            ∷ conv hex none
            ∷ space
            ∷ conv hex_set (some 64)
            ∷ lit 58
            ∷ conv hex none
            ∷ fmt)
          (ends_part c (32 ∷ rest))
        ≡ stored (text c.local) (
            stored (num (clamp hex false (value_of hex 0 c.local_port))) (
              stored (text c.remote) (
                stored
                  (num (clamp hex false (value_of hex 0 c.remote_port)))
                  (scan fmt (32 ∷ rest)))))
  scan-ends fmt rest =
      rw
        (
          skip_number dec (inl refl) c.sl_pad c.sl 58 h.sl.0 h.sl.1 break_colon,
          scan-lit 58,
          space_number hex 1 c.local h.local.0 h.local.1,
          conv_hex_set 64 c.local 58 h.local.0 h.local.1 break_colon h.local_size,
          scan-lit 58,
          conv_number hex (inr (inl refl)) 0 c.local_port 32 h.local_port.0 h.local_port.1
              break_blank,
          space_number hex 1 c.remote h.remote.0 h.remote.1,
          conv_hex_set 64 c.remote 58 h.remote.0 h.remote.1 break_colon h.remote_size,
          scan-lit 58,
          conv_number hex (inr (inl refl)) 0 c.remote_port 32 h.remote_port.0 h.remote_port.1
              break_blank,
        )
        refl

  scan-state :
      (fmt : List Directive) (rest : Str)
      → scan
          (space
            ∷ skip hex none
            ∷ space
            ∷ skip hex none
            ∷ lit 58
            ∷ skip hex none
            ∷ space
            ∷ skip hex none
            ∷ lit 58
            ∷ skip hex none
            ∷ space
            ∷ skip hex none
            ∷ fmt)
          (state_part c (32 ∷ rest))
        ≡ scan fmt (32 ∷ rest)
  scan-state fmt rest =
      rw
        (
          space_number hex 1 c.st h.st.0 h.st.1,
          skip_number hex (inr (inl refl)) 0 c.st 32 h.st.0 h.st.1 break_blank,
          space_number hex 1 c.tx h.tx.0 h.tx.1,
          skip_number hex (inr (inl refl)) 0 c.tx 58 h.tx.0 h.tx.1 break_colon,
          scan-lit 58,
          skip_number hex (inr (inl refl)) 0 c.rx 32 h.rx.0 h.rx.1 break_blank,
          space_number hex 1 c.tr h.tr.0 h.tr.1,
          skip_number hex (inr (inl refl)) 0 c.tr 58 h.tr.0 h.tr.1 break_colon,
          scan-lit 58,
          skip_number hex (inr (inl refl)) 0 c.when 32 h.when.0 h.when.1 break_blank,
          space_number hex 1 c.retr h.retr.0 h.retr.1,
          skip_number hex (inr (inl refl)) 0 c.retr 32 h.retr.0 h.retr.1 break_blank,
        )
        refl

  values-owner :
      (tail : Str)
      → (scan
          (space
            ∷ skip dec none
            ∷ space
            ∷ skip dec none
            ∷ space
            ∷ conv dec none
            ∷ space
            ∷ skip word (some 512)
            ∷ space
            ∷ [])
          (owner_part c tail)).values
        ≡ num (clamp dec false (value_of dec 0 c.inode)) ∷ []
  values-owner tail =
      rw
        (
          space_number dec (suc c.uid_pad) c.uid h.uid.0 h.uid.1,
          skip_number dec (inl refl) 0 c.uid 32 h.uid.0 h.uid.1 break_blank,
          space_number dec (suc c.timeout_pad) c.timeout h.timeout.0 h.timeout.1,
          skip_number dec (inl refl) 0 c.timeout 32 h.timeout.0 h.timeout.1 break_blank,
          space_number dec 1 c.inode h.inode.0 h.inode.1,
          conv_number dec (inl refl) 0 c.inode 32 h.inode.0 h.inode.1 break_blank,
        )
        (ap (◌∷◌ (num (clamp dec false (value_of dec 0 c.inode))))
          (values-skip_word (some 512) (32 ∷ tail)))

  -- What sscanf(3) stores for a row.
  values-row :
      (sscanf (row_text c) row_format).values
      ≡ text c.local
        ∷ num (clamp hex false (value_of hex 0 c.local_port))
        ∷ text c.remote
        ∷ num (clamp hex false (value_of hex 0 c.remote_port))
        ∷ num (clamp dec false (value_of dec 0 c.inode))
        ∷ []
  unfolding sscanf lits
  values-row =
      rw
        (
          c_str-ends c h (state_part c (owner_part c c.tail)),
          c_str-state c h (owner_part c c.tail),
          c_str-owner c h c.tail,
          scan-ends,
          scan-state,
          values-owner,
        )
        refl

  -- A row adds what `add_row` does for its columns.
  pub parse_buffer-row :
      (inet : Inet) (ds : List CapDevice) (m : Dict Str ℕ)
      → parse_buffer inet ds m (row_text c)
        ≡ add_row inet ds
            (record {
              loc_addr = c.local;
              loc_port = clamp hex false (value_of hex 0 c.local_port) % 2 ^ 32;
              rem_addr = c.remote;
              rem_port = clamp hex false (value_of hex 0 c.remote_port) % 2 ^ 32;
              inode = clamp dec false (value_of dec 0 c.inode);
            })
            m
  unfolding parse_buffer row_values
  parse_buffer-row inet ds m = rw (values-row, parse_buffer) refl
