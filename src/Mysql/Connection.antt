-- ===== src/Mysql/Connection.antt =====
-- A connection of drivers/mysql/dbd_mysql.c: `dbd_connect`, `dbd_disconnect`, `dbd_query`, `dbd_select_db`,
-- `dbd_geterror`, `dbd_get_seq_last` and `dbd_ping`. libmysqlclient is a parameter. The handles that
-- it has given out and that are not closed are kept in the state: a use of another, or of a null
-- pointer, is a fault.
pub mod Handles
pub mod Sessions
use libdbi_drivers.Prelude.{
  ℕ, zero, suc, Bool, true, false, ◌||◌, Option, none, some, List, [], ◌∷◌, ◌++◌, map, ◌==◌, ltb,
  if◌then◌else◌, Bytes, codes,
}
use libdbi_drivers.Prelude.Faults.{M, ◌>>=◌, ◌>>◌, pure, fault}
use libdbi_drivers.Prelude.Int.{ℤ, pos, negsuc}
use libdbi_drivers.Prelude.Opened.{is_open, without}
use libdbi_drivers.Dbi.{Field}
use libdbi_drivers.Mysql.Charset.{encoding_statements}
use libdbi_drivers.Mysql.Client.{client_flags, Login, Stored, Mysql}

-- `numeric` are the options that are numbers, -1 where one is not set; `last_error` is what libdbi's
-- error handler got from `dbd_geterror`.
pub record Conn (my : Mysql) : Type 0 where
  pub host : Option Bytes
  pub username : Option Bytes
  pub password : Option Bytes
  pub dbname : Option Bytes
  pub encoding : Option Bytes
  pub unix_socket : Option Bytes
  pub numeric : Bytes → ℤ
  pub connection : Option ℕ
  pub current_db : Option Bytes
  pub last_error : Option (ℕ × Bytes)
  pub world : my.World
  pub opened : List ℕ

pub record QueryResult : Type 0 where
  pub numrows_matched : ℕ
  pub numrows_affected : ℕ
  pub fields : List Field

abbrev pub is_zero : ℤ → Bool
is_zero (pos zero) = true
is_zero z = false

abbrev is_unset : ℤ → Bool
is_unset (pos n) = false
is_unset (negsuc n) = n == 0

module _ (my : Mysql) where
  abbrev pub Action : Type 0 → Type 0
  Action A = M (Conn my) A

  abbrev login_of : Conn my → Login
  login_of c = record {
    host = c.host;
    username = c.username;
    password = c.password;
    dbname = c.dbname;
    port = c.numeric (codes "port");
    unix_socket = c.unix_socket;
    flags = client_flags c.numeric;
  }

  -- The handle that `mysql_init` returns is open.
  abbrev pub init : Action (Option ℕ)
  init c =
      let (o, w) = my.init c.world in
      elim o [
        | none ↦ some (none, record c { world = w })
        | some h ↦ some (some h, record c { world = w; opened = h ∷ c.opened })
      ]

  -- A call with a handle, and one that only reads.
  abbrev pub on_handle : {A : Type 0} → ℕ → (my.World → A × my.World) → Action A
  on_handle h f c =
      let (a, w) = f c.world in
      elim (is_open c.opened h) [ true ↦ some (a, record c { world = w }) | false ↦ none ]

  abbrev pub close : ℕ → Action (Unit {0})
  close h c = elim (is_open c.opened h) [
    | true ↦ some (tt, record c { world = my.close h c.world; opened = without c.opened h })
    | false ↦ none
  ]

  abbrev pub set_connection : Option ℕ → Action (Unit {0})
  set_connection o c = some (tt, record c { connection = o })

  abbrev pub set_current_db : Option Bytes → Action (Unit {0})
  set_current_db none c = some (tt, c)
  set_current_db (some db) c = some (tt, record c { current_db = some db })

  abbrev set_error : Option (ℕ × Bytes) → Action (Unit {0})
  set_error o c = some (tt, record c { last_error = o })

  -- `conn->connection` where it is used without a test.
  abbrev pub the_handle : {A : Type 0} → (ℕ → Action A) → Option ℕ → Action A
  the_handle f none = fault
  the_handle f (some h) = f h

  abbrev numbered : Bytes → ℕ → Option (ℕ × Bytes)
  numbered [] errno = none
  numbered (c ∷ text) errno = some (errno, c ∷ text)

  -- `none` where there is no error.
  abbrev error_of : ℕ → Action (Option (ℕ × Bytes))
  error_of h = on_handle h (λ w. (numbered (my.error h w) (my.errno h w), w))

  unfoldable pub dbd_geterror : Action (Option (ℕ × Bytes))
  dbd_geterror c = the_handle error_of c.connection c

  -- `_dbd_internal_error_handler(conn, NULL, DBI_ERROR_DBD)`
  unfoldable pub handle_error : Action (Unit {0})
  unfolding dbd_geterror
  handle_error = do e ← dbd_geterror; set_error e

  abbrev result_of : Option Stored → ℕ → QueryResult
  result_of none affected = record { numrows_matched = 0; numrows_affected = affected; fields = [] }
  result_of (some stored) affected = record {
    numrows_matched = stored.num_rows;
    numrows_affected = affected;
    fields = stored.fields;
  }

  abbrev stored_if : ℕ → Bool → Action (Option QueryResult)
  stored_if h false = pure none
  stored_if h true = do
    stored ← on_handle h (my.store_result h)
    affected ← on_handle h (λ w. (my.affected_rows h w, w))
    pure (some (result_of stored affected))

  unfoldable pub query_on : Bytes → ℕ → Action (Option QueryResult)
  query_on statement h = do ok ← on_handle h (my.query h statement); stored_if h ok

  unfoldable pub dbd_query : Bytes → Action (Option QueryResult)
  unfolding query_on
  dbd_query statement c = the_handle (query_on statement) c.connection c

  -- The statements for the encoding, whose results are not looked at.
  unfoldable pub run_all : List Bytes → Action (Unit {0})
  unfolding dbd_query
  run_all [] = pure tt
  run_all (statement ∷ statements) = do dbd_query statement; run_all statements

  abbrev run_if : Option (List Bytes) → Action (Unit {0})
  run_if none = fault
  run_if (some statements) = run_all statements

  abbrev or_empty : Option Bytes → Bytes
  or_empty none = []
  or_empty (some s) = s

  abbrev set_encoding : Action (Unit {0})
  set_encoding c =
      run_if (encoding_statements (my.ask c.world) c.encoding (or_empty c.current_db)) c

  -- On an error the handle is still set while the error is asked for.
  unfoldable pub connected : ℕ → Bool → Action ℤ
  unfolding handle_error run_all encoding_statements
  connected h false = do
    set_connection (some h)
    handle_error
    close h
    set_connection none
    pure (negsuc 1)
  connected h true = do
    set_connection (some h)
    (λ c. set_current_db c.dbname c)
    set_encoding
    pure (pos 0)

  abbrev set_timeout : ℕ → ℤ → Action (Unit {0})
  set_timeout h timeout =
      if is_unset timeout then pure tt else on_handle h (λ w. (tt, my.set_timeout h timeout w))

  unfoldable pub opened_as : Option ℕ → Action ℤ
  unfolding connected client_flags
  opened_as none = pure (negsuc 1)
  opened_as (some h) = do
    (λ c. set_timeout h (c.numeric (codes "timeout")) c)
    ok ← (λ c. on_handle h (my.real_connect h (login_of c)) c)
    connected h ok

  unfoldable pub dbd_connect : Action ℤ
  unfolding opened_as
  dbd_connect = do o ← init; opened_as o

  unfoldable pub disconnect_from : Option ℕ → Action (Unit {0})
  disconnect_from none = pure tt
  disconnect_from (some h) = close h

  -- The pointer to the connection stays.
  unfoldable pub dbd_disconnect : Action (Unit {0})
  unfolding disconnect_from
  dbd_disconnect c = disconnect_from c.connection c

  -- An error is an empty text.
  unfoldable pub selected : Bytes → Bool → Action Bytes
  unfolding handle_error
  selected db false = do handle_error; pure []
  selected db true = do set_current_db (some db); pure db

  unfoldable pub dbd_select_db : Bytes → Action Bytes
  unfolding selected
  dbd_select_db db c =
      the_handle (λ h. do ok ← on_handle h (my.select_db h db); selected db ok) c.connection c

  unfoldable pub dbd_get_seq_last : Action ℕ
  dbd_get_seq_last c = the_handle (λ h. on_handle h (λ w. (my.insert_id h w, w))) c.connection c

  unfoldable pub dbd_ping : Action Bool
  dbd_ping c = the_handle (λ h. on_handle h (my.ping h)) c.connection c
