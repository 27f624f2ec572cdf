-- ===== src/Ingres/Rows/Blobs.antt =====
-- The block that a long column is put together in.
use mathlib.Core.List.{append_assoc, append-nil}
use libdbi_drivers.Prelude.{
  ℕ, ◌≤◌, some, List, [], ◌∷◌, ◌++◌, ◌≡◌, refl, ap, ◌∙◌, arith, Bytes, length, length-append,
}
use libdbi_drivers.Ingres.Rows.{Blob, resized, append_segment, append_segments, fetch_blob}

abbrev pub concat : List Bytes → Bytes
concat [] = []
concat (s ∷ ss) = s ++ concat ss

abbrev pub AreBounded : ℕ → List Bytes → Type 0
AreBounded n [] = Unit {0}
AreBounded n (s ∷ ss) = (length s ≤ n) × AreBounded n ss

-- What was written fits the block, which is at least as long as a column's segment.
abbrev IsWithin : ℕ → Blob → Type 0
IsWithin ds_length blob = (length blob.written ≤ blob.blobmax) × (ds_length ≤ blob.blobmax)

append_segment-IsWithin :
    (ds_length : ℕ) (blob : Blob) (segment : Bytes)
    → IsWithin ds_length blob
    → length segment ≤ ds_length
    → (blob' : Blob) × (append_segment blob segment ≡ some blob')
      × (blob'.written ≡ blob.written ++ segment)
      × IsWithin ds_length blob'
unfolding append_segment
append_segment-IsWithin ds_length blob segment (h, k) l = (
  record { written = blob.written ++ segment; blobmax = resized blob segment },
  ground arith,
  refl,
  (ground (arith, length-append blob.written segment), ground arith),
)

append_segments-cons :
    (blob blob' : Blob) (s : Bytes) (ss : List Bytes)
    → append_segment blob s ≡ some blob'
    → append_segments blob (s ∷ ss) ≡ append_segments blob' ss
unfolding append_segments
append_segments-cons blob blob' s ss e = rw (append_segments, e) refl

append_segments-concat :
    (ds_length : ℕ) (blob : Blob) (ss : List Bytes)
    → IsWithin ds_length blob
    → AreBounded ds_length ss
    → (blob' : Blob) × (append_segments blob ss ≡ some blob')
      × (blob'.written ≡ blob.written ++ concat ss)
append_segments-concat ds_length blob [] h k =
    (blob, unfold append_segments in refl, rw (append-nil blob.written) refl)
append_segments-concat ds_length blob (s ∷ ss) h (k, ks) =
    let (blob', step, written, within) = append_segment-IsWithin ds_length blob s h k in
    let (last, rest, all) = append_segments-concat ds_length blob' ss within ks in
    (
      last,
      append_segments-cons blob blob' s ss step ∙ rest,
      all ∙ rw (written, append_assoc blob.written s (concat ss)) refl,
    )

-- Segments of which none is longer than the column's `ds_length`, however many there are, are put
-- together whole and in order, and none is written behind the end of the block: doubling it once is
-- always enough.
pub fetch_blob-concat :
    (ds_length : ℕ) (ss : List Bytes)
    → AreBounded ds_length ss
    → fetch_blob ds_length ss ≡ some (concat ss)
unfolding fetch_blob
fetch_blob-concat ds_length ss h =
    let (blob, e, written) =
      append_segments-concat ds_length (record { written = []; blobmax = ds_length }) ss
        (ground arith, ground arith) h in
    rw (fetch_blob, e) (ap (λ (s : Bytes). some s) written)
