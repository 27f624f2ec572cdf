-- ===== src/Tests/Queries.antt =====
-- Queries of the FreeTDS driver at concrete inputs.
use libdbi_drivers.Prelude.{true, false, some, List, [], ◌∷◌, ◌++◌, ◌≡◌, refl, Bytes, codes}
use libdbi_drivers.Freetds.Types.{Datafmt, cs_int}
use libdbi_drivers.Freetds.Query.{
  row, end_data, RowResult, rowfmt_result, cmd_succeed, cmd_done, cmd_fail, row_result, end_results,
  rows_returned, failed, undefined, returned, fields_of, dbd_query,
}
use libdbi_drivers.Freetds.Query.Results.{dbd_query-cmd_fail, dbd_query-rows}

abbrev columns : List (Bytes × Datafmt)
columns = (codes "id", record { datatype = cs_int; maxlength = 4; nullterm = false }) ∷ []

abbrev three_rows : RowResult
three_rows = record {
  columns = some columns;
  is_bound = true;
  fetches = row true ∷ row true ∷ row true ∷ [];
  ended = end_data;
}

dbd_query-rows_example :
    dbd_query true
      ((rowfmt_result ∷ []) ++ row_result three_rows ∷ (cmd_succeed ∷ cmd_done ∷ []))
      end_results
    ≡ returned
        (some (record { state = rows_returned; fields = fields_of columns; numrows_matched = 3 }))
dbd_query-rows_example =
    dbd_query-rows (rowfmt_result ∷ []) (cmd_succeed ∷ cmd_done ∷ []) three_rows columns (tt, tt)
      (tt, (tt, tt)) refl refl tt refl

dbd_query-cmd_fail_example :
    dbd_query true ((row_result three_rows ∷ []) ++ cmd_fail ∷ []) end_results ≡ failed
dbd_query-cmd_fail_example = dbd_query-cmd_fail true (row_result three_rows ∷ []) [] end_results tt

-- A second result with rows is described into memory that was freed.
second : dbd_query true (row_result three_rows ∷ row_result three_rows ∷ []) end_results ≡ undefined
unfolding dbd_query
second = refl
