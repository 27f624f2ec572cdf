-- ===== src/Firebird/Rows/Blobs.antt =====
-- The block that a blob is read into.
use libdbi_drivers.Prelude.{◌<◌, none, List, ◌≡◌, arith, Bytes, length}
use libdbi_drivers.Firebird.Rows.{read_blob}

-- A blob whose first segment has more than two bytes is written behind the end of the block that is
-- allocated for it.
pub read_blob-none :
    (segment : Bytes) (segments : List Bytes)
    → 2 < length segment
    → read_blob segment segments ≡ none
unfolding read_blob
read_blob-none segment segments h = ground arith
