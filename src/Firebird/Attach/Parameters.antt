-- ===== src/Firebird/Attach/Parameters.antt =====
-- The parameter block as the server reads it.
use mathlib.Core.List.{append-nil}
use libdbi_drivers.Prelude.{
  ℕ, zero, suc, ◌+◌, ◌%◌, ◌≤◌, ◌<◌, Option, none, some, List, [], ◌∷◌, ◌++◌, ◌≡◌, refl, arith,
  Bytes, length, length-append,
}
use libdbi_drivers.Firebird.Encoding.{dbd_encoding_from_iana}
use libdbi_drivers.Firebird.Attach.{DpbCodes, entry, chosen_encoding, written, in_buffer, dpb}

-- The first characters of a text and the others; `none` if there are too few.
unfoldable pub split : ℕ → Bytes → Option (Bytes × Bytes)
split zero s = some ([], s)
split (suc n) [] = none
split (suc n) (c ∷ s) = elim (split n s) [ none ↦ none | some (a, b) ↦ some (c ∷ a, b) ]

-- Entries one behind the other; `none` is a block that is cut off, or too little fuel.
unfoldable pub read_entries : ℕ → Bytes → Option (List (ℕ × Bytes))
unfolding split
read_entries fuel [] = some []
read_entries zero (c ∷ s) = none
read_entries (suc fuel) (c ∷ []) = none
read_entries (suc fuel) (c ∷ n ∷ s) = elim (split n s) [
  | none ↦ none
  | some (text, rest) ↦ elim (read_entries fuel rest) [
    | none ↦ none
    | some entries ↦ some ((c, text) ∷ entries)
  ]
]

-- A block: the version, then the entries.
unfoldable pub read_dpb : ℕ → Bytes → Option (ℕ × List (ℕ × Bytes))
unfolding read_entries
read_dpb fuel [] = none
read_dpb fuel (version ∷ s) = elim (read_entries fuel s) [
  | none ↦ none
  | some entries ↦ some (version, entries)
]

split-length : (s rest : Bytes) → split (length s) (s ++ rest) ≡ some (s, rest)
unfolding split
split-length [] rest = refl
split-length (c ∷ s) rest = rw (split, split-length s rest) refl

read_entries-entry :
    (fuel code : ℕ) (text rest : Bytes) (entries : List (ℕ × Bytes))
    → length text < 256
    → read_entries fuel rest ≡ some entries
    → read_entries (suc fuel) (entry code text ++ rest) ≡ some ((code, text) ∷ entries)
unfolding read_entries
read_entries-entry fuel code text rest entries h e =
    let n : length text % 256 ≡ length text = omega (arith, h) in
    rw (n, read_entries, split-length text rest, read_entries, e) refl

in_buffer-some : (s : Bytes) → length s ≤ 256 → in_buffer s ≡ some s
in_buffer-some s h = ground arith

in_buffer-none : (s : Bytes) → 256 < length s → in_buffer s ≡ none
in_buffer-none s h = ground arith

-- The characters of the three entries are fewer than the block's.
length-written :
    (isc : DpbCodes) (u p e : Bytes)
    → length (written isc u p e) ≡ length u + length p + length e + 10
unfolding written
length-written isc u p e = ground (
  arith,
  length-append u (entry isc.password p ++ entry isc.lc_ctype e),
  length-append p (entry isc.lc_ctype e),
)

abbrev entries_of : DpbCodes → Bytes → Bytes → Bytes → List (ℕ × Bytes)
entries_of isc u p e =
    (isc.num_buffers, 90 ∷ []) ∷ (isc.user_name, u) ∷ (isc.password, p) ∷ (isc.lc_ctype, e) ∷ []

read_dpb-written :
    (isc : DpbCodes) (u p e : Bytes)
    → length u + length p + length e ≤ 246
    → read_dpb 4 (written isc u p e) ≡ some (isc.version1, entries_of isc u p e)
unfolding written read_dpb
read_dpb-written isc u p e h =
    let none_left : read_entries 0 [] ≡ some [] = unfold read_entries in refl in
    let last = read_entries-entry 0 isc.lc_ctype e [] [] (omega (arith, h)) none_left in
    let encoding : read_entries 1 (entry isc.lc_ctype e) ≡ some ((isc.lc_ctype, e) ∷ []) =
      rw append-nil at last in
    let password =
      read_entries-entry 1 isc.password p (entry isc.lc_ctype e) _ (omega (arith, h)) encoding in
    let user =
      read_entries-entry 2 isc.user_name u (entry isc.password p ++ entry isc.lc_ctype e) _
        (omega (arith, h)) password in
    let all =
      read_entries-entry 3 isc.num_buffers (90 ∷ [])
        (entry isc.user_name u ++ (entry isc.password p ++ entry isc.lc_ctype e)) _
        (omega (arith, h)) user in
    rw (read_dpb, all) refl

-- Out of the parameter block the server reads the version, the number of buffers, the user's name, the
-- password and its own name of the encoding, whatever characters they have, if they have at most 246
-- characters together.
pub read_dpb-dpb :
    (isc : DpbCodes) (username password fb_encoding : Bytes) (encoding : Option Bytes)
    → dbd_encoding_from_iana (chosen_encoding encoding) ≡ fb_encoding
    → length username + length password + length fb_encoding ≤ 246
    → (block : Bytes) × (dpb isc (some username) (some password) encoding ≡ some block)
      × (read_dpb 4 block
          ≡ some (
            isc.version1,
            (isc.num_buffers, 90 ∷ [])
                ∷ (isc.user_name, username)
                ∷ (isc.password, password)
                ∷ (isc.lc_ctype, fb_encoding)
                ∷ [],
          ))
unfolding dpb written
read_dpb-dpb isc username password fb_encoding encoding e h = (
  written isc username password fb_encoding,
  rw (dpb, e)
      (in_buffer-some (written isc username password fb_encoding)
        (omega (arith, length-written isc username password fb_encoding, h))),
  read_dpb-written isc username password fb_encoding h,
)

-- With more characters than that, the block is written behind the end of its array.
pub dpb-none :
    (isc : DpbCodes) (username password fb_encoding : Bytes) (encoding : Option Bytes)
    → dbd_encoding_from_iana (chosen_encoding encoding) ≡ fb_encoding
    → 246 < length username + length password + length fb_encoding
    → dpb isc (some username) (some password) encoding ≡ none
unfolding dpb
dpb-none isc username password fb_encoding encoding e h =
    rw (dpb, e)
      (in_buffer-none (written isc username password fb_encoding)
        (omega (arith, length-written isc username password fb_encoding, h)))
