-- ===== src/Firebird/Session/Ping.antt =====
-- What `dbd_ping` returns.
use libdbi_drivers.Prelude.{Bool, true, false, some, ◌≡◌, refl, sym, ◌↔◌, arith, Bytes}
use libdbi_drivers.Prelude.Faults.{Ensures, Ensures-bind}
use libdbi_drivers.Prelude.Int.{ℤ, pos}
use libdbi_drivers.Firebird.Statement.{Isc, Connection, unconnected, connected, dangling, Conn}
use libdbi_drivers.Firebird.Session.{ping_result, ping_on, dbd_ping}
use libdbi_drivers.Firebird.Session.Balanced.{Attaches, Fits, IsMade, connect-IsMade}

module _ (isc : Isc) where
  -- The returned number is 0 if and only if the server did not answer, and there is a connection.
  abbrev pub Answers : Bool → ℤ → Conn isc → Type 0
  Answers ok r c =
      ((r ≡ pos 0) ↔ (ok ≡ false)) × ((trans : Bool) × (c.connection ≡ connected trans))

  ping_result-Answers :
      Attaches isc
      → (ok : Bool) (trans : Bool) (db : Bytes) (c : Conn isc) → c.connection ≡ connected trans
      → c.dbname ≡ some db
      → Fits c.options db
      → Ensures (Answers ok) (ping_result isc ok c)
  unfolding ping_result
  ping_result-Answers attaches true trans db c k n f = (ground arith, (trans, k))
  ping_result-Answers attaches false trans db c k n f =
      Ensures-bind (IsMade isc c.statements) (Answers false) _ _
        (connect-IsMade isc attaches db c.statements (record c { connection = dangling }) n f refl)
        (λ r c' m. (ground arith, m.1.0))

  ping_on-Answers :
      Attaches isc
      → (x : Connection) (trans : Bool) (db : Bytes) (c : Conn isc) → x ≡ c.connection
      → x ≡ connected trans
      → c.dbname ≡ some db
      → Fits c.options db
      → Ensures (Answers (isc.database_info c.world).0) (ping_on isc x c)
  unfolding ping_on
  ping_on-Answers attaches unconnected trans db c e k n f = cc
  ping_on-Answers attaches dangling trans db c e k n f = cc
  ping_on-Answers attaches (connected t) trans db c e k n f =
      ping_result-Answers attaches _ t db _ (sym e) n f

  -- On a connection with a named database, a directory, a user and a password, where every database can be attached and
  -- the parameter block and the path fit in their arrays, `dbd_ping` returns 0
  -- exactly when the server did not answer, although it has then connected again: there is a
  -- connection in either case.
  pub dbd_ping-zero :
      Attaches isc
      → (c : Conn isc) (trans : Bool) (db : Bytes) → c.connection ≡ connected trans
      → c.dbname ≡ some db
      → Fits c.options db
      → Ensures (Answers (isc.database_info c.world).0) (dbd_ping isc c)
  unfolding dbd_ping
  dbd_ping-zero attaches c trans db k n f =
      ping_on-Answers attaches c.connection trans db c refl k n f
