-- ===== src/Ingres/Query.antt =====
-- Statements of drivers/ingres/dbd_ingres.c: `ingres_query`, `ingres_close`, `ingres_commit` and `ingres_rollback`, with
-- what `ingres_results` does besides reading the values, which is in Ingres/Rows: the columns that each call
-- of `IIapi_getColumns` asks for, and the array of rows that grows. The Ingres API is a parameter. The
-- statement handles that are not closed are kept in the state. Error texts are not kept. The buffers of
-- a row's values may not be there; all other memory is.
pub mod Closed
pub mod Groups
pub mod Slots
use libdbi_drivers.Prelude.{
  ℕ, zero, suc, ◌+◌, ◌*◌, ◌==◌, Bool, true, false, Option, none, some, List, [], ◌∷◌, ltb,
  if◌then◌else◌, Bytes, codes, map,
}
use libdbi_drivers.Prelude.Faults.{M, ◌>>=◌, ◌>>◌, pure}
use libdbi_drivers.Prelude.Opened.{without}
use libdbi_drivers.CString.{to_upper, starts_with}
use libdbi_drivers.Dbi.{Field}

-- IIAPI_STATUS, in the order of the codes.
pub data Status : Type 0 where
  success message warning no_data error : Status

-- `status < IIAPI_ST_NO_DATA` and `status < IIAPI_ST_ERROR`
abbrev pub below_no_data : Status → Bool
below_no_data no_data = false
below_no_data error = false
below_no_data status = true

abbrev pub below_error : Status → Bool
below_error error = false
below_error status = true

abbrev pub is_success : Status → Bool
is_success success = true
is_success status = false

-- What `IIapi_query` hands out: its status, the transaction, and the statement.
pub record Started : Type 0 where
  pub status : Status
  pub tran : Option ℕ
  pub stmt : Option ℕ

-- The Ingres API, on a world of its own. `descriptor` gives the fields as they are classified; `row_count`
-- is `none` without a count; `rows` is the number of rows that `IIapi_getColumns` delivers before it
-- reports no more data or an error. `alloc_buffers` is true if `ingres_results` gets the memory for
-- `databuf` and each of its values.
pub record IiApi : Type 1 where
  pub World : Type 0
  pub query : Bytes → Option ℕ → World → Started × World
  pub descriptor : Option ℕ → World → Status × World
  pub fields : Option ℕ → World → List Field
  pub query_info : Option ℕ → World → Status × World
  pub row_count : Option ℕ → World → Option ℕ
  pub alloc_buffers : List Field → World → Bool × World
  pub rows : Option ℕ → World → ℕ × World
  pub close : ℕ → World → World
  pub commit : Option ℕ → World → Status × World
  pub rollback : Option ℕ → World → Status × World

-- `is_connected` says that there is a connection with a handle; `curr_tran` is `currTran`.
pub record Conn (ii : IiApi) : Type 0 where
  pub is_connected : Bool
  pub curr_tran : Option ℕ
  pub stmts : List ℕ
  pub world : ii.World

-- INITIAL_ROWS and ROW_FACTOR
abbrev pub initial_rows : ℕ
initial_rows = 10

abbrev pub row_factor : ℕ
row_factor = 4

-- `stmt` is the `stmtHandle` of the result's handle, `none` also without a handle.
pub record QueryResult : Type 0 where
  pub numrows_matched : ℕ
  pub numrows_affected : ℕ
  pub fields : List Field
  pub stmt : Option ℕ

abbrev empty_result : ℕ → QueryResult
empty_result affected = record {
  numrows_matched = 0;
  numrows_affected = affected;
  fields = [];
  stmt = none;
}

-- `!strncasecmp(statement, word, n)`, for a word of `n` capitals.
unfoldable pub begins_with : Bytes → Bytes → Bool
unfolding starts_with to_upper
begins_with word statement = starts_with word (map to_upper statement)

module _ (ii : IiApi) where
  abbrev pub Action : Type 0 → Type 0
  Action A = M (Conn ii) A

  abbrev pub call : {A : Type 0} → (ii.World → A × ii.World) → Action A
  call f c = let (a, w) = f c.world in some (a, record c { world = w })

  abbrev pub add_stmt : Option ℕ → List ℕ → List ℕ
  add_stmt none stmts = stmts
  add_stmt (some h) stmts = h ∷ stmts

  -- Nothing is done for a null pointer.
  unfoldable pub ingres_close : Option ℕ → Action (Unit {0})
  ingres_close none c = some (tt, c)
  ingres_close (some h) c =
      some (tt, record c { world = ii.close h c.world; stmts = without c.stmts h })

  abbrev set_tran : Option ℕ → Action (Unit {0})
  set_tran o c = some (tt, record c { curr_tran = o })

  unfoldable pub ended : Status → Action (Option QueryResult)
  ended success = do set_tran none; pure (some (empty_result 0))
  ended status = pure none

  unfoldable pub ingres_commit : Action Status
  ingres_commit c = call (ii.commit c.curr_tran) c

  unfoldable pub ingres_rollback : Action Status
  ingres_rollback c = call (ii.rollback c.curr_tran) c

  -- The statement that `IIapi_query` starts is allocated.
  abbrev pub start : Bytes → Action Started
  start statement c =
      let (s, w) = ii.query statement c.curr_tran c.world in
      some (s, record c { world = w; curr_tran = s.tran; stmts = add_stmt s.stmt c.stmts })

  abbrev fields_of : Option ℕ → Action (List Field)
  fields_of stmt c = some (ii.fields stmt c.world, c)

  abbrev count_of : Option ℕ → Action (Option ℕ)
  count_of stmt c = some (ii.row_count stmt c.world, c)

  abbrev affected : Status → Option ℕ → ℕ
  affected error count = 0
  affected status none = 0
  affected status (some n) = n

  -- `ingres_results` returns at once without its buffers, with the number of rows that the result was
  -- created with; else it fetches all rows and closes the statement.
  unfoldable pub ingres_results : Option ℕ → List Field → Bool → Action (Option QueryResult)
  unfolding ingres_close
  ingres_results stmt fields false = pure (
      some (record {
        numrows_matched = initial_rows;
        numrows_affected = 0;
        fields = fields;
        stmt = stmt;
      }))
  ingres_results stmt fields true = do
    n ← call (ii.rows stmt)
    ingres_close stmt
    pure (some (record { numrows_matched = n; numrows_affected = 0; fields = fields; stmt = none }))

  -- With no descriptors there are no rows.
  unfoldable pub with_fields : Option ℕ → List Field → Action (Option QueryResult)
  unfolding ingres_close ingres_results
  with_fields stmt [] = do
    status ← call (ii.query_info stmt)
    count ← count_of stmt
    ingres_close stmt
    pure (some (empty_result (affected status count)))
  with_fields stmt (f ∷ fields) = do
    there ← call (ii.alloc_buffers (f ∷ fields))
    ingres_results stmt (f ∷ fields) there

  abbrev failed : Option ℕ → Action (Option QueryResult)
  failed stmt = do ingres_close stmt; pure none

  unfoldable pub described : Option ℕ → Bool → Action (Option QueryResult)
  unfolding with_fields
  described stmt false = failed stmt
  described stmt true = do fields ← fields_of stmt; with_fields stmt fields

  unfoldable pub started : Option ℕ → Bool → Action (Option QueryResult)
  unfolding described
  started stmt false = failed stmt
  started stmt true = do status ← call (ii.descriptor stmt); described stmt (below_error status)

  unfoldable pub run : Bytes → Action (Option QueryResult)
  unfolding started
  run statement = do s ← start statement; started s.stmt (below_no_data s.status)

  unfoldable pub query_connected : Bytes → Bool → Action (Option QueryResult)
  unfolding begins_with ingres_commit ingres_rollback ended run
  query_connected statement false = pure none
  query_connected statement true =
      if begins_with (codes "COMMIT") statement
      then (do status ← ingres_commit; ended status)
      else if begins_with (codes "ROLLBACK") statement
      then (do status ← ingres_rollback; ended status)
      else run statement

  unfoldable pub ingres_query : Bytes → Action (Option QueryResult)
  unfolding query_connected
  ingres_query statement c = query_connected statement c.is_connected c

  unfoldable pub dbd_free_query : QueryResult → Action (Unit {0})
  unfolding ingres_close
  dbd_free_query r = ingres_close r.stmt

-- `gc_columnCount` columns from a column on, and the columns behind them, by whether they are long. The
-- inner loop goes to the next long column.
unfoldable pub to_next_long : List Bool → List Bool × List Bool
to_next_long [] = ([], [])
to_next_long (true ∷ columns) = ([], true ∷ columns)
to_next_long (false ∷ columns) = let (group, rest) = to_next_long columns in (false ∷ group, rest)

-- A long column is asked for alone.
unfoldable pub one_group : List Bool → List Bool × List Bool
unfolding to_next_long
one_group [] = ([], [])
one_group (true ∷ columns) = (true ∷ [], columns)
one_group (false ∷ columns) = to_next_long (false ∷ columns)

-- The loop over the columns of a row, on fuel; `none` is a loop that does not end with it.
unfoldable pub groups : ℕ → List Bool → Option (List (List Bool))
unfolding one_group
groups zero columns = none
groups (suc fuel) [] = some []
groups (suc fuel) (c ∷ columns) = elim (groups fuel (one_group (c ∷ columns)).1) [
  | none ↦ none
  | some gs ↦ some ((one_group (c ∷ columns)).0 ∷ gs)
]

-- The loop over the rows that are left, with `count`, `limit`, and the length of the array. libdbi's
-- `_dbd_row_finalize` writes the row `count` to the member `slot count`; `none` is a write behind the end.
unfoldable pub store_rows : (ℕ → ℕ) → ℕ → ℕ → ℕ → ℕ → Option ℕ
store_rows slot zero count limit size = some count
store_rows slot (suc n) count limit size =
    let limit' = if count == limit then limit * row_factor else limit in
    let size' = if count == limit then limit * row_factor else size in
    elim (ltb (slot count) size') [
      | true ↦ store_rows slot n (count + 1) limit' size'
      | false ↦ none
    ]

-- `initial` is the length of the array that `_dbd_result_create` allocates for INITIAL_ROWS.
unfoldable pub fetch_all : (ℕ → ℕ) → ℕ → ℕ → Option ℕ
unfolding store_rows
fetch_all slot initial n = store_rows slot n 0 initial_rows initial
