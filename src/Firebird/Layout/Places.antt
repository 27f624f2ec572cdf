-- ===== src/Firebird/Layout/Places.antt =====
-- The places of the columns of a row in the buffer.
use libdbi_drivers.Prelude.{ℕ, ◌+◌, ◌≤◌, ◌<◌, ◌≡◌, refl, none, some, List, [], ◌∷◌, arith}
use libdbi_drivers.Firebird.Layout.{
  Column, Place, fb_align, length_of, size_of_short, short_limit, place_columns,
}

-- The bytes of the columns and their indicators, and those with the most that alignment adds.
abbrev pub bytes_of : List Column → ℕ
bytes_of [] = 0
bytes_of (c ∷ columns) = length_of c.type c.sqllen + size_of_short + bytes_of columns

abbrev pub room_of : List Column → ℕ
room_of [] = 0
room_of (c ∷ columns) = length_of c.type c.sqllen + size_of_short + 2 + room_of columns

module _ (c : Column) (columns : List Column) (offset : ℕ) where
  abbrev data_at : ℕ
  data_at = fb_align offset

  abbrev ind_at : ℕ
  ind_at = fb_align (data_at + length_of c.type c.sqllen)

pub place_columns-some :
    (columns : List Column) (offset : ℕ)
    → offset + room_of columns < short_limit
    → (places : List Place) × (place_columns columns offset ≡ some places)
unfolding place_columns
place_columns-some [] offset h = ([], refl)
place_columns-some (c ∷ columns) offset h =
    let (rest, is_rest) = place_columns-some columns (ind_at c columns offset + 2) (omega arith) in
    (
      record { sqldata = data_at c columns offset; sqlind = ind_at c columns offset } ∷ rest,
      ground arith,
    )

place_columns-full :
    (columns : List Column) (offset : ℕ)
    → offset < short_limit
    → short_limit ≤ offset + bytes_of columns
    → place_columns columns offset ≡ none
unfolding place_columns
place_columns-full [] offset l h = absurd (omega arith)
place_columns-full (c ∷ columns) offset l h =
    ground (arith, place_columns-full columns (ind_at c columns offset + 2))

-- Columns whose values and indicators take 32768 bytes or more have no places, although the buffer has
-- 32768 bytes for each of them: an offset on the way is more than a `short` holds.
pub place_columns-none :
    (columns : List Column) → short_limit ≤ bytes_of columns → place_columns columns 0 ≡ none
place_columns-none columns h = place_columns-full columns 0 (omega arith) (omega arith)
