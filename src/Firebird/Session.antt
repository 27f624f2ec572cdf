-- ===== src/Firebird/Session.antt =====
-- A connection of the Firebird driver from `dbd_connect` to `dbd_disconnect`: these, `dbd_select_db` and
-- `dbd_ping` of drivers/firebird/dbd_firebird.c, and `_dbd_real_connect` and `dealocate_iconn` of
-- drivers/firebird/utility.c. The name of the database and the parameter block are made in Firebird/Attach,
-- and what is a fault there is one here.
pub mod Balanced
pub mod Ping
use libdbi_drivers.Prelude.{
  ℕ, zero, suc, Bool, true, false, Option, none, some, List, [], ◌∷◌, if◌then◌else◌, Bytes,
}
use libdbi_drivers.Prelude.Faults.{◌>>=◌, ◌>>◌, pure, fault}
use libdbi_drivers.Prelude.Int.{ℤ, pos, negsuc}
use libdbi_drivers.Firebird.Attach.{dpb, dbase}
use libdbi_drivers.Firebird.Statement.{
  Isc, Connection, unconnected, connected, dangling, Conn, Statement, Action, call, set_connection,
  commit, dbd_query, dbd_free_query,
}

module _ (isc : Isc) where
  abbrev get_connection : Action isc Connection
  get_connection c = some (c.connection, c)

  abbrev get_dbname : Action isc (Option Bytes)
  get_dbname c = some (c.dbname, c)

  -- `dbi_conn_set_option(conn, "dbname", db)`
  abbrev set_dbname : Bytes → Action isc (Unit {0})
  set_dbname db c = some (tt, record c { dbname = some db })

  -- `iconn` is allocated and not written: where the database cannot be attached, `dealocate_iconn` frees
  -- the pointer that is read out of it.
  unfoldable pub attached : Bool → Action isc ℤ
  attached false = fault
  attached true = do ok ← call isc isc.start; set_connection isc (connected ok); pure (pos 0)

  unfoldable pub attach_to : Bytes → Option Bytes → Action isc ℤ
  unfolding attached
  attach_to block none = fault
  attach_to block (some name) = do ok ← call isc (isc.attach name block); attached ok

  unfoldable pub attach_named : Bytes → Option Bytes → Action isc ℤ
  unfolding attach_to dbase
  attach_named block none = pure (negsuc 0)
  attach_named block (some dbname) = λ c.
      let o = c.options in
      attach_to block (dbase o.path_max o.default_dbdir o.dbdir o.host dbname) c

  unfoldable pub with_dpb : Option Bytes → Action isc ℤ
  unfolding attach_named
  with_dpb none = fault
  with_dpb (some block) = do dbname ← get_dbname; attach_named block dbname

  unfoldable pub _dbd_real_connect : Action isc ℤ
  unfolding with_dpb dpb
  _dbd_real_connect c =
      with_dpb (dpb isc.dpb_codes c.options.username c.options.password c.options.encoding) c

  -- The transaction is committed, the database given back, and the memory of `iconn` freed.
  unfoldable pub release : Connection → Action isc (Unit {0})
  unfolding commit
  release unconnected = pure tt
  release (connected trans) = do
    commit isc
    call isc (λ w. (tt, isc.detach w))
    set_connection isc dangling
  release dangling = fault

  unfoldable pub dbd_disconnect : Action isc (Unit {0})
  unfolding release
  dbd_disconnect = do x ← get_connection; release x

  abbrev is_zero : ℤ → Bool
  is_zero (pos zero) = true
  is_zero z = false

  -- `db` is empty for a null pointer.
  unfoldable pub dbd_select_db : Bytes → Action isc (Option Bytes)
  unfolding release _dbd_real_connect
  dbd_select_db [] = pure none
  dbd_select_db (b ∷ db) = do
    x ← get_connection
    release x
    set_dbname (b ∷ db)
    r ← _dbd_real_connect
    pure (if is_zero r then some (b ∷ db) else none)

  -- After a server that did not answer `iconn` is freed, and a connection made again.
  unfoldable pub ping_result : Bool → Action isc ℤ
  unfolding _dbd_real_connect
  ping_result true = pure (pos 1)
  ping_result false = do
    set_connection isc dangling
    r ← _dbd_real_connect
    pure (if is_zero r then pos 0 else pos 1)

  unfoldable pub ping_on : Connection → Action isc ℤ
  unfolding ping_result
  ping_on unconnected = fault
  ping_on (connected trans) = do ok ← call isc isc.database_info; ping_result ok
  ping_on dangling = fault

  unfoldable pub dbd_ping : Action isc ℤ
  unfolding ping_on
  dbd_ping = do x ← get_connection; ping_on x

  -- libdbi frees each result that a query returns.
  abbrev freed_if : Option Statement → Action isc (Unit {0})
  freed_if none = pure tt
  freed_if (some s) = dbd_free_query isc s

  unfoldable pub queries : List Bytes → Action isc (Unit {0})
  unfolding dbd_query dbd_free_query
  queries [] = pure tt
  queries (statement ∷ statements) = do
    result ← dbd_query isc statement
    freed_if result
    queries statements

  unfoldable pub session : List Bytes → Action isc (Unit {0})
  unfolding _dbd_real_connect queries dbd_disconnect
  session statements = do _dbd_real_connect; queries statements; dbd_disconnect
