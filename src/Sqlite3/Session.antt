-- ===== src/Sqlite3/Session.antt =====
-- A connection of drivers/sqlite3/dbd_sqlite3.c: `_real_dbd_connect` with the file and the timeout of
-- Sqlite3/Connect, `dbd_disconnect`, `dbd_select_db`, `dbd_get_seq_last` and `dbd_ping`. SQLite is a
-- parameter. The handles that it has given out and that are not closed are kept in the state: a use of
-- another, or of a null pointer, is a fault. What a query returns is in Sqlite3/Query.
pub mod Opened
use libdbi_drivers.Prelude.{
  ℕ, zero, suc, Bool, true, false, Option, none, some, List, [], ◌∷◌, if◌then◌else◌, Bytes, codes,
}
use libdbi_drivers.Prelude.Faults.{M, ◌>>=◌, ◌>>◌, pure, fault}
use libdbi_drivers.Prelude.Int.{ℤ, pos, negsuc}
use libdbi_drivers.Prelude.Opened.{is_open, without}
use libdbi_drivers.Sqlite3.Connect.{
  Opening, refused, undefined, open8, open16, chosen_dbname, opening, busy_timeout,
}

-- What `sqlite3_open` returns and stores: on an error too, there may be a handle.
pub data OpenResult : Type 0 where
  opened : ℕ → OpenResult
  error : Option ℕ → OpenResult

-- SQLite, on a world of its own. `get_table` says whether the statement succeeds.
pub record Sqlite : Type 1 where
  pub World : Type 0
  pub open8 : Bytes → World → OpenResult × World
  pub open16 : Bytes → World → OpenResult × World
  pub close : ℕ → World → World
  pub set_busy_timeout : ℕ → ℤ → World → World
  pub get_table : ℕ → Bytes → World → Bool × World
  pub last_insert_rowid : ℕ → World → ℕ

-- `dbdir` is what `_conn_get_dbdir` returns, and the two timeouts are -1 where they are not set.
pub record Conn (sq : Sqlite) : Type 0 where
  pub dbname : Option Bytes
  pub dbdir : Option Bytes
  pub encoding : Option Bytes
  pub sqlite3_timeout : ℤ
  pub timeout : ℤ
  pub connection : Option ℕ
  pub current_db : Option Bytes
  pub world : sq.World
  pub handles : List ℕ

abbrev pub add_handle : OpenResult → List ℕ → List ℕ
add_handle (opened h) handles = h ∷ handles
add_handle (error none) handles = handles
add_handle (error (some h)) handles = h ∷ handles

module _ (sq : Sqlite) where
  abbrev pub Action : Type 0 → Type 0
  Action A = M (Conn sq) A

  abbrev pub open_by : (sq.World → OpenResult × sq.World) → Action OpenResult
  open_by f c =
      let (r, w) = f c.world in some (r, record c { world = w; handles = add_handle r c.handles })

  -- A call with a handle, and one with `conn->connection`, which is not tested.
  abbrev pub on_handle : {A : Type 0} → ℕ → (sq.World → A × sq.World) → Action A
  on_handle h f c =
      let (a, w) = f c.world in
      elim (is_open c.handles h) [ true ↦ some (a, record c { world = w }) | false ↦ none ]

  abbrev pub the_handle : {A : Type 0} → (ℕ → Action A) → Option ℕ → Action A
  the_handle f none = fault
  the_handle f (some h) = f h

  abbrev pub close : ℕ → Action (Unit {0})
  close h c = elim (is_open c.handles h) [
    | true ↦ some (tt, record c { world = sq.close h c.world; handles = without c.handles h })
    | false ↦ none
  ]

  -- The pointer to the connection stays.
  abbrev pub close_if : Option ℕ → Action (Unit {0})
  close_if none = pure tt
  close_if (some h) = close h

  abbrev pub set_connection : ℕ → Bytes → Action (Unit {0})
  set_connection h database c =
      some (tt, record c { connection = some h; current_db = chosen_dbname database c.dbname })

  -- Whether `dbd_query` returns a result.
  abbrev pub query : Bytes → Action Bool
  query statement c = the_handle (λ h. on_handle h (sq.get_table h statement)) c.connection c

  abbrev pub set_timeout : ℕ → Action (Unit {0})
  set_timeout h c =
      on_handle h (λ w. (tt, sq.set_busy_timeout h (busy_timeout c.sqlite3_timeout c.timeout) w)) c

  -- The result of the statement is not looked at, but freed.
  unfoldable pub connected : Bytes → OpenResult → Action ℤ
  unfolding busy_timeout
  connected database (error o) = pure (negsuc 0)
  connected database (opened h) = do
    set_connection h database
    set_timeout h
    query (codes "PRAGMA empty_result_callbacks=1")
    pure (pos 0)

  unfoldable pub open_database : Bytes → Opening → Action ℤ
  unfolding connected
  open_database database refused = pure (negsuc 0)
  open_database database undefined = fault
  open_database database (open8 path) = do r ← open_by (sq.open8 path); connected database r
  open_database database (open16 path) = do r ← open_by (sq.open16 path); connected database r

  unfoldable pub _real_dbd_connect : Bytes → Action ℤ
  unfolding open_database opening
  _real_dbd_connect database c =
      open_database database (opening database c.dbname c.encoding c.dbdir) c

  unfoldable pub dbd_connect : Action ℤ
  unfolding _real_dbd_connect
  dbd_connect = _real_dbd_connect []

  unfoldable pub dbd_disconnect : Action (Unit {0})
  dbd_disconnect c = close_if c.connection c

  abbrev pub is_zero : ℤ → Bool
  is_zero (pos zero) = true
  is_zero z = false

  -- `db` is empty for a null pointer.
  unfoldable pub dbd_select_db : Bytes → Action (Option Bytes)
  unfolding _real_dbd_connect
  dbd_select_db [] = pure none
  dbd_select_db (d ∷ db) = do
    (λ c. close_if c.connection c)
    r ← _real_dbd_connect (d ∷ db)
    pure (if is_zero r then some (d ∷ db) else none)

  unfoldable pub dbd_get_seq_last : Action ℕ
  dbd_get_seq_last c =
      the_handle (λ h. on_handle h (λ w. (sq.last_insert_rowid h w, w))) c.connection c

  unfoldable pub dbd_ping : Action ℕ
  dbd_ping = do ok ← query (codes "SELECT 1"); pure (if ok then 1 else 0)
