-- ===== src/Freetds/Query.antt =====
-- `dbd_query` of drivers/freetds/dbd_freetds.c: the loop over what `ct_results` reports, with the fetching of
-- the rows of a result. The answers of the CT library are the events that the function goes
-- through; memory is always there. What the binding of buffers converts, and where that is undefined, is in
-- Freetds/Rows; here it succeeds or fails.
pub mod Results
use libdbi_drivers.Prelude.{
  ℕ, zero, suc, ◌+◌, Bool, true, false, Option, none, some, List, [], ◌∷◌, if◌then◌else◌, Bytes,
}
use libdbi_drivers.Prelude.Int.{ℤ, pos, negsuc}
use libdbi_drivers.Dbi.{Field}
use libdbi_drivers.Dbi.Sized.{field}
use libdbi_drivers.Freetds.Types.{Datafmt, _translate_freetds_type}

-- A `ct_fetch` that succeeds, with what the binding of buffers for the next row answers, or one that
-- returns CS_ROW_FAIL.
pub data Fetch : Type 0 where
  row : Bool → Fetch
  row_fail : Fetch

-- What ends the loop of fetches.
pub data FetchEnd : Type 0 where
  end_data fail unexpected : FetchEnd

-- `columns` is `none` if `ct_res_info` or a `ct_describe` fails; `is_bound` is the answer of the first
-- binding.
pub record RowResult : Type 0 where
  pub columns : Option (List (Bytes × Datafmt))
  pub is_bound : Bool
  pub fetches : List Fetch
  pub ended : FetchEnd

-- `result_type`, where `ct_results` succeeds.
pub data Event : Type 0 where
  rowfmt_result cmd_succeed cmd_done cmd_fail compute_result status_result other_result : Event
  row_result : RowResult → Event

-- What `ct_results` returns in the end.
pub data ResultsEnd : Type 0 where
  end_results results_fail other_end : ResultsEnd

pub data ResultState : Type 0 where
  nothing_returned rows_returned : ResultState

pub record Result : Type 0 where
  pub state : ResultState
  pub fields : List Field
  pub numrows_matched : ℕ

-- The variables of the loop: `result`, and whether `datafmt` points to memory that was freed.
pub record State : Type 0 where
  pub result : Option Result
  pub is_freed : Bool

-- A null pointer, a `realloc` or a second `free` of freed memory, or `result`.
pub data Outcome : Type 0 where
  failed undefined : Outcome
  returned : Option Result → Outcome

pub data Step : Type 0 where
  stops : Outcome → Step
  goes_on : State → Step

unfoldable pub fields_of : List (Bytes × Datafmt) → List Field
unfolding _translate_freetds_type
fields_of [] = []
fields_of ((name, datafmt) ∷ columns) =
    field name (_translate_freetds_type datafmt).1 ∷ fields_of columns

-- The rows that are saved, on top of `n`; `none` is a return of a null pointer.
unfoldable pub fetch_rows : ℕ → List Fetch → Option ℕ
fetch_rows n [] = some n
fetch_rows n (row true ∷ fetches) = fetch_rows (suc n) fetches
fetch_rows n (row false ∷ fetches) = none
fetch_rows n (row_fail ∷ fetches) = none

-- The `switch` on the last return of `ct_fetch`. `datafmt` is freed; without a column it is what it was
-- before, and freed twice if it was freed.
abbrev pub ended : FetchEnd → List (Bytes × Datafmt) → ℕ → Bool → Step
ended end_data [] n true = stops undefined
ended end_data columns n is_freed = goes_on (record {
  result = some (record { state = rows_returned; fields = fields_of columns; numrows_matched = n });
  is_freed = elim columns [ [] ↦ false | c ∷ cs ↦ true ];
})
ended fail columns n is_freed = stops failed
ended unexpected columns n is_freed = stops failed

abbrev pub fetched : RowResult → List (Bytes × Datafmt) → Bool → Step
fetched r columns is_freed = elim r.is_bound [
  | false ↦ stops failed
  | true ↦ elim (fetch_rows 0 r.fetches) [
    | none ↦ stops failed
    | some n ↦ ended r.ended columns n is_freed
  ]
]

-- CS_ROW_RESULT; the first column is described into the memory that `realloc` gives.
unfoldable pub read_rows : RowResult → Option (List (Bytes × Datafmt)) → Bool → Step
unfolding fetch_rows fields_of
read_rows r none is_freed = stops failed
read_rows r (some []) is_freed = fetched r [] is_freed
read_rows r (some (c ∷ cs)) true = stops undefined
read_rows r (some (c ∷ cs)) false = fetched r (c ∷ cs) false

abbrev pub with_result : Option Result → Option Result
with_result none = some (record { state = nothing_returned; fields = []; numrows_matched = 0 })
with_result (some r) = some r

-- One pass of the loop.
unfoldable pub one_event : State → Event → Step
unfolding read_rows
one_event st rowfmt_result = goes_on st
one_event st cmd_succeed = goes_on (record st { result = with_result st.result })
one_event st cmd_done = goes_on st
one_event st cmd_fail = stops failed
one_event st (row_result r) = read_rows r r.columns st.is_freed
one_event st compute_result = stops failed
one_event st status_result = goes_on st
one_event st other_result = stops failed

unfoldable pub run : State → List Event → ResultsEnd → Outcome
unfolding one_event
run st [] end_results = returned st.result
run st [] results_ret = failed
run st (e ∷ events) results_ret = elim (one_event st e) [
  | stops outcome ↦ outcome
  | goes_on st' ↦ run st' events results_ret
]

-- `is_sent` says that the command was accepted and sent.
unfoldable pub dbd_query : Bool → List Event → ResultsEnd → Outcome
unfolding run
dbd_query false events results_ret = failed
dbd_query true events results_ret =
    run (record { result = none; is_freed = false }) events results_ret

abbrev pub is_zero : ℤ → Bool
is_zero (pos zero) = true
is_zero z = false

-- What `dbd_ping` returns, by the success of its query and the return of `dbd_connect`.
abbrev pub dbd_ping : Bool → ℤ → ℤ
dbd_ping true res = pos 1
dbd_ping false res = if is_zero res then res else pos 0
