-- ===== src/Firebird/Statement.antt =====
-- Statements and connections of drivers/firebird/dbd_firebird.c: `dbd_query`, `dbd_free_query`, the call of
-- `isc_dsql_fetch` with which `_get_row_data` begins, `return_generator_value`, `dbd_connect`,
-- `dbd_disconnect`, `dbd_select_db` and `dbd_ping`. The client library is a parameter. The structure behind
-- `conn->connection` and the buffer of a statement say whether their memory is still there; a use of
-- memory that is not, or that was not written, is a fault. Texts of errors are not kept.
pub mod Handles
pub mod Dangling
use libdbi_drivers.Prelude.{
  ℕ, Bool, true, false, not, Option, none, some, List, [], ◌∷◌, ◌++◌, ◌==◌, ltb, if◌then◌else◌,
  Bytes, codes, length,
}
use libdbi_drivers.Prelude.Faults.{M, ◌>>=◌, ◌>>◌, pure, fault}
use libdbi_drivers.Prelude.Opened.{without}
use libdbi_drivers.Prelude.Int.{ℤ, pos, negsuc}
use libdbi_drivers.Dbi.{Field}
use libdbi_drivers.Firebird.Attach.{DpbCodes}
use libdbi_drivers.Firebird.Layout.{Column, Place, place_columns}
use libdbi_drivers.Firebird.Rows.{_get_field_info}
use libdbi_drivers.Firebird.Types.{FirebirdType}

-- What `isc_dsql_sql_info` says of a statement.
pub data StatementType : Type 0 where
  stmt_ddl stmt_other : StatementType

-- The client library, on a world of its own. A `Bool` is true where the status is 0, and `none` an error.
-- `allocate` is `isc_dsql_allocate_statement`, and so on; the first argument of `prepare`, `execute` and
-- `commit` is `iconn->trans`, by whether it is a transaction. `fetch` gives what it stores for the first
-- column, read as a `long`, and `attach` takes the name of the database.
pub record Isc : Type 1 where
  pub World : Type 0
  pub allocate : World → Option ℕ × World
  pub prepare : Bool → ℕ → Bytes → World → Option (List Column) × World
  pub sql_info : ℕ → World → Option StatementType × World
  pub describe : ℕ → World → Option (List Column) × World
  pub execute : Bool → ℕ → World → Bool × World
  pub fetch : ℕ → World → Option ℕ × World
  pub drop : ℕ → World → World
  pub commit : Bool → World → Bool × World
  pub start : World → Bool × World
  pub dpb_codes : DpbCodes
  pub attach : Bytes → Bytes → World → Bool × World
  pub detach : World → World
  pub database_info : World → Bool × World
  pub print_int : ℕ → Bytes

-- `conn->connection`: null, an `ibase_conn_t` with its `trans`, or the address of one that was freed.
pub data Connection : Type 0 where
  unconnected : Connection
  connected : Bool → Connection
  dangling : Connection

-- The options of a connection but dbname, `dbdir` for firebird_dbdir, with the build's DBDIR and PATH_MAX.
pub record Options : Type 0 where
  pub username : Option Bytes
  pub password : Option Bytes
  pub encoding : Option Bytes
  pub host : Option Bytes
  pub dbdir : Option Bytes
  pub default_dbdir : Bytes
  pub path_max : ℕ

-- The statement handles that are allocated are kept in `statements`; `dbname` is the option.
pub record Conn (isc : Isc) : Type 0 where
  pub connection : Connection
  pub options : Options
  pub dbname : Option Bytes
  pub statements : List ℕ
  pub world : isc.World

-- The memory that the places of a row are in.
pub data Buffer : Type 0 where
  absent live freed : Buffer

-- An `ibase_stmt_t` with the fields of its result. `places` is `none` if an offset is outside of a `short`.
pub record Statement : Type 0 where
  pub stmt : ℕ
  pub columns : List Column
  pub places : Option (List Place)
  pub buffer : Buffer
  pub fields : List Field

abbrev pub sql_columns : List Column → List (Bytes × FirebirdType)
sql_columns [] = []
sql_columns (c ∷ columns) = (c.name, c.type) ∷ sql_columns columns

-- `_dbd_result_set_numfields`, `_get_field_info`, and `if (buffer) free(buffer)`.
abbrev pub statement_of : ℕ → List Column → Statement
statement_of h [] = record { stmt = h; columns = []; places = none; buffer = absent; fields = [] }
statement_of h (c ∷ columns) = record {
  stmt = h;
  columns = c ∷ columns;
  places = place_columns (c ∷ columns) 0;
  buffer = freed;
  fields = _get_field_info (sql_columns (c ∷ columns));
}

module _ (isc : Isc) where
  abbrev pub Action : Type 0 → Type 0
  Action A = M (Conn isc) A

  -- A call of the library that has a result.
  abbrev pub call : {A : Type 0} → (isc.World → A × isc.World) → Action A
  call f c = let (a, w) = f c.world in some (a, record c { world = w })

  -- `iconn->trans`
  abbrev pub trans_of : Connection → Option Bool
  trans_of unconnected = none
  trans_of (connected trans) = some trans
  trans_of dangling = none

  abbrev pub get_trans : Action Bool
  get_trans c = elim (trans_of c.connection) [ none ↦ none | some trans ↦ some (trans, c) ]

  abbrev pub set_connection : Connection → Action (Unit {0})
  set_connection x c = some (tt, record c { connection = x })

  -- `isc_dsql_allocate_statement`
  abbrev pub allocate : Action (Option ℕ)
  allocate c =
      let (o, w) = isc.allocate c.world in
      elim o [
        | none ↦ some (none, record c { world = w })
        | some h ↦ some (some h, record c { world = w; statements = h ∷ c.statements })
      ]

  -- `isc_dsql_free_statement` with DSQL_drop
  abbrev pub drop : ℕ → Action (Unit {0})
  drop h c = some (tt, record c { world = isc.drop h c.world; statements = without c.statements h })

  abbrev pub give_up : ℕ → Action (Option Statement)
  give_up h = do drop h; pure none

  -- `isc_commit_transaction` sets the handle of the transaction to 0 if it succeeds, and
  -- `isc_start_transaction` sets it.
  unfoldable pub commit : Action Bool
  commit = do
    trans ← get_trans
    ok ← call (isc.commit trans)
    set_connection (connected (if ok then false else trans))
    pure ok

  unfoldable pub start : Action (Unit {0})
  start = do
    trans ← get_trans
    ok ← call isc.start
    set_connection (connected (if ok then true else trans))

  -- After a statement without output. The type of the statement is not written if it could not be asked.
  unfoldable pub committed : ℕ → Bool → Action (Option Statement)
  unfolding start
  committed h false = give_up h
  committed h true = do start; pure (some (statement_of h []))

  unfoldable pub commit_ddl : ℕ → Bool → Option StatementType → Action (Option Statement)
  unfolding commit committed
  commit_ddl h false kind = pure (some (statement_of h []))
  commit_ddl h true none = fault
  commit_ddl h true (some stmt_other) = pure (some (statement_of h []))
  commit_ddl h true (some stmt_ddl) = do ok ← commit; committed h ok

  unfoldable pub executed :
      ℕ → List Column → Option StatementType → Bool → Action (Option Statement)
  unfolding commit_ddl
  executed h columns kind false = give_up h
  executed h [] kind true = do trans ← get_trans; commit_ddl h trans kind
  executed h (c ∷ columns) kind true = pure (some (statement_of h (c ∷ columns)))

  unfoldable pub execute : ℕ → List Column → Option StatementType → Action (Option Statement)
  unfolding executed
  execute h columns kind = do
    trans ← get_trans
    ok ← call (isc.execute trans h)
    executed h columns kind ok

  unfoldable pub described :
      ℕ → Option StatementType → Option (List Column) → Action (Option Statement)
  unfolding execute
  described h kind none = give_up h
  described h kind (some columns) = execute h columns kind

  -- There is room for one column, and more are described again.
  unfoldable pub with_type : ℕ → List Column → Option StatementType → Action (Option Statement)
  unfolding described execute
  with_type h [] kind = execute h [] kind
  with_type h (c ∷ []) kind = execute h (c ∷ []) kind
  with_type h (c ∷ d ∷ columns) kind = do more ← call (isc.describe h); described h kind more

  unfoldable pub prepared : ℕ → Option (List Column) → Action (Option Statement)
  unfolding with_type
  prepared h none = give_up h
  prepared h (some columns) = do kind ← call (isc.sql_info h); with_type h columns kind

  unfoldable pub allocated : Bytes → Option ℕ → Action (Option Statement)
  unfolding prepared
  allocated statement none = pure none
  allocated statement (some h) = do
    trans ← get_trans
    columns ← call (isc.prepare trans h statement)
    prepared h columns

  unfoldable pub dbd_query : Bytes → Action (Option Statement)
  unfolding allocated
  dbd_query statement = do get_trans; o ← allocate; allocated statement o

  unfoldable pub dbd_free_query : Statement → Action (Unit {0})
  dbd_free_query s = do get_trans; drop s.stmt

  -- What the server stores goes to the places of the columns.
  abbrev pub stored : Buffer → Option ℕ → Action (Option ℕ)
  stored buffer none = pure none
  stored live (some value) = pure (some value)
  stored freed (some value) = fault
  stored absent (some value) = fault

  unfoldable pub fetch : Statement → Action (Option ℕ)
  fetch s = do get_trans; value ← call (isc.fetch s.stmt); stored s.buffer value

  abbrev pub generator_query : Bytes → ℕ → Bytes
  generator_query sequence type =
      codes "SELECT GEN_ID( "
      ++ (sequence ++ (codes " ," ++ (isc.print_int type ++ codes " ) FROM RDB$DATABASE")))

  -- The result is used without a test.
  abbrev pub first_value : Option Statement → Action ℕ
  first_value none = fault
  first_value (some s) = do
    value ← fetch s
    dbd_free_query s
    pure (elim value [ none ↦ 0 | some n ↦ n ])

  unfoldable pub return_generator_value : Bytes → ℕ → Action ℕ
  unfolding dbd_query fetch dbd_free_query
  return_generator_value sequence type = do
    result ← dbd_query (generator_query sequence type)
    first_value result
