-- ===== src/Pgsql/Connection.antt =====
-- A connection of drivers/pgsql/dbd_pgsql.c: `_dbd_real_connect`, `dbd_disconnect`, `dbd_select_db`,
-- `dbd_query`, `dbd_get_seq_last`, `dbd_get_seq_next` and `dbd_ping`. libpq is a parameter. The handles
-- that it has given out and that are not finished are kept in the state, so that a use of another
-- is a fault.
pub mod Handles
pub mod Sessions
use libdbi_drivers.Prelude.{
  ℕ, zero, suc, Bool, true, false, ◌||◌, not, ◌&&◌, Option, none, some, List, [], ◌∷◌, ◌++◌, map,
  ◌==◌, if◌then◌else◌, Bytes, codes,
}
use libdbi_drivers.Prelude.Faults.{M, ◌>>=◌, ◌>>◌, pure}
use libdbi_drivers.Prelude.Opened.{is_open, without}
use libdbi_drivers.Prelude.Int.{ℤ, pos, negsuc, pattern_of}
use libdbi_drivers.CString.{equal}
use libdbi_drivers.CString.Number.{atol}
use libdbi_drivers.Dbi.{Field}
use libdbi_drivers.Dbi.Sized.{field}
use libdbi_drivers.Pgsql.Conninfo.{Setting, text, number, Options, chosen_dbname, conninfo}
use libdbi_drivers.Pgsql.Encoding.{dbd_encoding_from_iana}
use libdbi_drivers.Pgsql.Types.{_translate_postgresql_type}

-- `PQresultStatus`
pub data ExecStatus : Type 0 where
  command_ok tuples_ok copy_out copy_in other_status : ExecStatus

-- A `PGresult`: `PQntuples`, `PQcmdTuples`, `PQfname` and `PQftype` of each column, and `PQgetvalue` of
-- the first column of the first row.
pub record Answer : Type 0 where
  pub status : ExecStatus
  pub ntuples : ℕ
  pub cmd_tuples : Bytes
  pub columns : List (Bytes × ℕ)
  pub first : Option Bytes

-- libpq, on a world of its own. `none` is a null pointer. `is_ok` is `PQstatus`, which is CONNECTION_OK
-- or CONNECTION_BAD for connections that are not opened asynchronously.
pub record Libpq : Type 1 where
  pub World : Type 0
  pub connectdb : Bytes → World → Option ℕ × World
  pub is_ok : ℕ → World → Bool
  pub set_client_encoding : ℕ → Bytes → World → World
  pub exec : Option ℕ → Bytes → World → Option Answer × World
  pub reset : ℕ → World → World
  pub finish : ℕ → World → World
  -- `_dbd_escape_chars` of libdbi, and `%d`
  pub escape_chars : Bytes → Bytes → Bytes
  pub print_int : ℤ → Bytes

-- The members of `dbi_conn_t` that the driver uses, the world, and the handles that are open.
pub record Conn (pq : Libpq) : Type 0 where
  pub options : Options
  pub connection : Option ℕ
  pub current_db : Option Bytes
  pub world : pq.World
  pub opened : List ℕ

-- What `dbd_query` fills a result with.
pub record QueryResult : Type 0 where
  pub numrows_matched : ℕ
  pub numrows_changed : ℕ
  pub fields : List Field
  pub first : Option Bytes

-- The value of the option `encoding`; empty for a null pointer.
unfoldable pub encoding_option : Options → Bytes
unfolding equal
encoding_option [] = []
encoding_option ((name, text value) ∷ options) =
    if equal name (codes "encoding") then value else encoding_option options
encoding_option ((name, number z) ∷ options) =
    if equal name (codes "encoding") then [] else encoding_option options

abbrev pub is_null : Bytes → Bool
is_null [] = true
is_null (c ∷ s) = false

-- The statuses that make `dbd_query` fail are all others.
abbrev pub is_success : ExecStatus → Bool
is_success other_status = false
is_success status = true

-- `_get_field_info`
abbrev pub fields_of : List (Bytes × ℕ) → List Field
fields_of [] = []
fields_of ((name, oid) ∷ columns) = field name (_translate_postgresql_type oid) ∷ fields_of columns

abbrev pub result_of : Answer → QueryResult
result_of answer = record {
  numrows_matched = answer.ntuples;
  numrows_changed = pattern_of 64 (atol answer.cmd_tuples);
  fields = fields_of answer.columns;
  first = answer.first;
}

module _ (pq : Libpq) where
  abbrev pub Action : Type 0 → Type 0
  Action A = M (Conn pq) A

  -- The handle that `PQconnectdb` returns is open.
  abbrev connectdb : Bytes → Action (Option ℕ)
  connectdb info c =
      let (o, w) = pq.connectdb info c.world in
      elim o [
        | none ↦ some (none, record c { world = w })
        | some h ↦ some (some h, record c { world = w; opened = h ∷ c.opened })
      ]

  abbrev finish : ℕ → Action (Unit {0})
  finish h c = elim (is_open c.opened h) [
    | true ↦ some (tt, record c { world = pq.finish h c.world; opened = without c.opened h })
    | false ↦ none
  ]

  -- Any other call with a handle.
  abbrev on_handle : ℕ → (pq.World → pq.World) → Action (Unit {0})
  on_handle h f c = elim (is_open c.opened h) [
    | true ↦ some (tt, record c { world = f c.world })
    | false ↦ none
  ]

  abbrev status_ok : ℕ → Action Bool
  status_ok h c = elim (is_open c.opened h) [ true ↦ some (pq.is_ok h c.world, c) | false ↦ none ]

  abbrev set_connection : Option ℕ → Action (Unit {0})
  set_connection o c = some (tt, record c { connection = o })

  abbrev get_connection : Action (Option ℕ)
  get_connection c = some (c.connection, c)

  abbrev get_options : Action Options
  get_options c = some (c.options, c)

  -- `if (dbname) conn->current_db = strdup(dbname);`
  abbrev set_current_db : Option Bytes → Action (Unit {0})
  set_current_db none c = some (tt, c)
  set_current_db (some db) c = some (tt, record c { current_db = some db })

  -- The end of `_dbd_real_connect`; "auto" leaves the server's encoding.
  unfoldable pub set_encoding : ℕ → Bytes → Action (Unit {0})
  unfolding equal dbd_encoding_from_iana
  set_encoding h encoding =
      if is_null encoding || equal encoding (codes "auto")
      then pure tt
      else on_handle h (pq.set_client_encoding h (dbd_encoding_from_iana encoding))

  -- The branch on `PQstatus`. A connection that failed is given back, behind the handler of errors, which
  -- calls `dbd_geterror` and with it `PQerrorMessage`.
  unfoldable pub connected : Options → Bytes → ℕ → Bool → Action ℤ
  unfolding set_encoding chosen_dbname encoding_option
  connected options db h false = do
    set_connection (some h)
    on_handle h (λ w. w)
    finish h
    set_connection none
    pure (negsuc 1)
  connected options db h true = do
    set_connection (some h)
    set_current_db (chosen_dbname options db)
    set_encoding h (encoding_option options)
    pure (pos 0)

  unfoldable pub opened_as : Options → Bytes → Option ℕ → Action ℤ
  unfolding connected
  opened_as options db none = pure (negsuc 0)
  opened_as options db (some h) = do ok ← status_ok h; connected options db h ok

  -- `db` is empty for a null pointer.
  unfoldable pub _dbd_real_connect : Bytes → Action ℤ
  unfolding opened_as
  _dbd_real_connect db = do
    options ← get_options
    o ← connectdb (conninfo pq.escape_chars pq.print_int options db)
    opened_as options db o

  -- `PQfinish` on the connection, if there is one.
  unfoldable pub finish_if : Option ℕ → Action (Unit {0})
  finish_if none = pure tt
  finish_if (some h) = finish h

  -- The pointer to the connection stays.
  unfoldable pub dbd_disconnect : Action (Unit {0})
  unfolding finish_if
  dbd_disconnect = do o ← get_connection; finish_if o

  abbrev is_zero : ℤ → Bool
  is_zero (pos zero) = true
  is_zero z = false

  unfoldable pub dbd_select_db : Bytes → Action (Option Bytes)
  unfolding finish_if _dbd_real_connect
  dbd_select_db [] = pure none
  dbd_select_db (c ∷ db) = do
    o ← get_connection
    finish_if o
    set_connection none
    r ← _dbd_real_connect (c ∷ db)
    pure (if is_zero r then some (c ∷ db) else none)

  -- `PQexec` on a null pointer fails.
  unfoldable pub exec_on : Option ℕ → Bytes → Action (Option Answer)
  exec_on none statement c =
      let (answer, w) = pq.exec none statement c.world in some (answer, record c { world = w })
  exec_on (some h) statement c = elim (is_open c.opened h) [
    | true ↦
        let (answer, w) = pq.exec (some h) statement c.world in
        some (answer, record c { world = w })
    | false ↦ none
  ]

  abbrev checked : Option Answer → Option QueryResult
  checked none = none
  checked (some answer) = if is_success answer.status then some (result_of answer) else none

  unfoldable pub dbd_query : Bytes → Action (Option QueryResult)
  unfolding exec_on
  dbd_query statement = do o ← get_connection; answer ← exec_on o statement; pure (checked answer)

  -- `(unsigned long long)atoll(rawdata)`, or 0 without a result or a value.
  abbrev first_number : Option QueryResult → ℕ
  first_number none = 0
  first_number (some result) = elim result.first [
    | none ↦ 0
    | some rawdata ↦ pattern_of 64 (atol rawdata)
  ]

  abbrev call_of : Bytes → Bytes → Bytes
  call_of function sequence =
      codes "SELECT " ++ (function ++ b'(' ∷ b'\'' ∷ (sequence ++ b'\'' ∷ b')' ∷ []))

  unfoldable pub dbd_get_seq_last : Bytes → Action ℕ
  unfolding dbd_query
  dbd_get_seq_last sequence = do
    result ← dbd_query (call_of (codes "currval") sequence)
    pure (first_number result)

  unfoldable pub dbd_get_seq_next : Bytes → Action ℕ
  unfolding dbd_query
  dbd_get_seq_next sequence = do
    result ← dbd_query (call_of (codes "nextval") sequence)
    pure (first_number result)

  -- `PQstatus` of a null pointer is CONNECTION_BAD, and `PQreset` does nothing to it.
  unfoldable pub ping_status : Option ℕ → Action Bool
  ping_status none = pure false
  ping_status (some h) = status_ok h

  unfoldable pub reset_if_bad : Option ℕ → Bool → Action Bool
  unfolding ping_status
  reset_if_bad o true = pure true
  reset_if_bad none false = ping_status none
  reset_if_bad (some h) false = do on_handle h (pq.reset h); ping_status (some h)

  unfoldable pub dbd_ping : Action Bool
  unfolding exec_on reset_if_bad ping_status
  dbd_ping = do
    o ← get_connection
    exec_on o (codes "SELECT 1")
    ok ← ping_status o
    reset_if_bad o ok
