-- ===== src/Firebird/Session/Balanced.antt =====
-- The statements and the memory of a connection over a session.
use libdbi_drivers.Prelude.{
  ℕ, ◌+◌, ◌≤◌, ◌<◌, Bool, true, false, Option, none, some, List, [], ◌∷◌, ◌≡◌, ◌≢◌, refl, Bytes,
  length,
}
use libdbi_drivers.Prelude.Faults.{Ensures, Ensures-bind}
use libdbi_drivers.Prelude.Int.{ℤ, pos}
use libdbi_drivers.Firebird.Encoding.{dbd_encoding_from_iana}
use libdbi_drivers.Firebird.Attach.{chosen_encoding, dpb, chosen_dbdir}
use libdbi_drivers.Firebird.Attach.Named.{dpb-some, dbase-some}
use libdbi_drivers.Firebird.Statement.{
  Isc, Connection, unconnected, connected, dangling, Options, Conn, Statement,
}
use libdbi_drivers.Firebird.Statement.Handles.{
  SaysTypes, Has, Returns, commit-Has, dbd_query-Returns, dbd_free_query-Has,
}
use libdbi_drivers.Firebird.Session.{
  attached, attach_to, attach_named, with_dpb, _dbd_real_connect, release, dbd_disconnect, freed_if,
  queries, session,
}

-- Every database can be attached.
abbrev pub Attaches : Isc → Type 0
Attaches isc = (name block : Bytes) (w : isc.World) → (isc.attach name block w).0 ≡ true

-- The options with which `_dbd_real_connect` stays inside of its arrays: there are a user and a password,
-- which have at most 246 characters with the server's name of the encoding, and a directory, whose path
-- with the name of the database is shorter than PATH_MAX.
abbrev pub Fits : Options → Bytes → Type 0
Fits o dbname =
    ((username : Bytes) × (password : Bytes) × (o.username ≡ some username)
      × (o.password ≡ some password)
      × (length username
            + length password
            + length (dbd_encoding_from_iana (chosen_encoding o.encoding))
          ≤ 246))
    × (chosen_dbdir o.default_dbdir o.dbdir ≢ [])
    × (length (chosen_dbdir o.default_dbdir o.dbdir) + length dbname + 1 < o.path_max)

module _ (isc : Isc) where
  -- There is no connection and no statement, a database is named, and the options fit.
  abbrev pub IsStart : Conn isc → Type 0
  IsStart c =
      (c.connection ≡ unconnected)
      × (c.statements ≡ [])
      × ((db : Bytes) × (c.dbname ≡ some db) × Fits c.options db)

  -- The connection is made, and `hs` are the statements.
  abbrev pub IsMade : List ℕ → ℤ → Conn isc → Type 0
  IsMade hs r c = (r ≡ pos 0) × Has isc hs c

  attached-IsMade :
      (ok : Bool) (hs : List ℕ) (c : Conn isc)
      → ok ≡ true
      → c.statements ≡ hs
      → Ensures (IsMade hs) (attached isc ok c)
  unfolding attached
  attached-IsMade false hs c e k = cc
  attached-IsMade true hs c e k = (refl, ((_, refl), k))

  attach_to-IsMade :
      Attaches isc
      → (block : Bytes) (o : Option Bytes) (name : Bytes) (hs : List ℕ) (c : Conn isc)
      → o ≡ some name
      → c.statements ≡ hs
      → Ensures (IsMade hs) (attach_to isc block o c)
  unfolding attach_to
  attach_to-IsMade attaches block none name hs c n k = cc
  attach_to-IsMade attaches block (some name') name hs c n k =
      attached-IsMade _ hs _ (attaches name' block c.world) k

  attach_named-IsMade :
      Attaches isc
      → (block : Bytes) (o : Option Bytes) (db : Bytes) (hs : List ℕ) (c : Conn isc) → o ≡ some db
      → Fits c.options db
      → c.statements ≡ hs
      → Ensures (IsMade hs) (attach_named isc block o c)
  unfolding attach_named
  attach_named-IsMade attaches block none db hs c n f k = cc
  attach_named-IsMade attaches block (some dbname) db hs c n f k =
      let same : dbname ≡ db = cc in
      let o = c.options in
      let (name, e) =
        dbase-some o.path_max o.default_dbdir o.dbdir o.host dbname f.1 (rw same f.2) in
      attach_to-IsMade attaches block _ name hs c e k

  with_dpb-IsMade :
      Attaches isc
      → (o : Option Bytes) (block db : Bytes) (hs : List ℕ) (c : Conn isc) → o ≡ some block
      → c.dbname ≡ some db
      → Fits c.options db
      → c.statements ≡ hs
      → Ensures (IsMade hs) (with_dpb isc o c)
  unfolding with_dpb
  with_dpb-IsMade attaches none block db hs c e n f k = cc
  with_dpb-IsMade attaches (some block') block db hs c e n f k =
      attach_named-IsMade attaches block' c.dbname db hs c n f k

  dpb-Fits :
      (o : Options) (db : Bytes)
      → Fits o db
      → (block : Bytes) × (dpb isc.dpb_codes o.username o.password o.encoding ≡ some block)
  dpb-Fits o db ((u, p, e, e', h), f, g) =
      let (block, b) = dpb-some isc.dpb_codes u p o.encoding h in (block, rw (e, e') b)

  pub connect-IsMade :
      Attaches isc
      → (db : Bytes) (hs : List ℕ) (c : Conn isc) → c.dbname ≡ some db
      → Fits c.options db
      → c.statements ≡ hs
      → Ensures (IsMade hs) (_dbd_real_connect isc c)
  unfolding _dbd_real_connect
  connect-IsMade attaches db hs c n f k =
      let (block, e) = dpb-Fits c.options db f in with_dpb-IsMade attaches _ block db hs c e n f k

  freed_if-Has :
      (o : Option Statement) (c : Conn isc)
      → Returns isc [] o c
      → Ensures (λ a c'. Has isc [] c') (freed_if isc o c)
  freed_if-Has none c k = k
  freed_if-Has (some s) c k = dbd_free_query-Has isc s [] c k

  queries-Has :
      SaysTypes isc
      → (statements : List Bytes) (c : Conn isc) → Has isc [] c
      → Ensures (λ a c'. Has isc [] c') (queries isc statements c)
  unfolding queries
  queries-Has says [] c k = k
  queries-Has says (statement ∷ statements) c k =
      Ensures-bind (Returns isc []) (λ a c'. Has isc [] c') _ _
        (dbd_query-Returns isc says statement [] c k)
        (λ o c' k.
          Ensures-bind (λ a c'. Has isc [] c') (λ a c'. Has isc [] c') _ _ (freed_if-Has o c' k)
            (λ a c' k. queries-Has says statements c' k))

  -- Nothing is left of a session: no statement, and not the structure of the connection.
  abbrev pub IsOver : Conn isc → Type 0
  IsOver c = (c.connection ≡ dangling) × (c.statements ≡ [])

  release-IsOver :
      (x : Connection) (trans : Bool) (c : Conn isc)
      → x ≡ connected trans
      → Has isc [] c
      → Ensures (λ a c'. IsOver c') (release isc x c)
  unfolding release
  release-IsOver unconnected trans c e k = cc
  release-IsOver dangling trans c e k = cc
  release-IsOver (connected t) trans c e k =
      Ensures-bind (λ ok c'. Has isc [] c') (λ a c'. IsOver c') _ _ (commit-Has isc [] c k)
        (λ ok c' k. (refl, k.1))

  -- Where every database can be attached, the server says of every statement of what type it is, there are
  -- a database, a directory for it, a user and a password, and the parameter block and the path fit in
  -- their arrays: a session that begins without a connection, connects, carries out any statements, of
  -- which each result is freed, and disconnects, uses no memory that is not there or not written,
  -- whatever else the server answers, and in the end no statement is allocated and the connection's
  -- structure is freed.
  pub session-IsOver :
      Attaches isc
      → SaysTypes isc
      → (statements : List Bytes) (c : Conn isc) → IsStart c
      → Ensures (λ a c'. IsOver c') (session isc statements c)
  unfolding session dbd_disconnect
  session-IsOver attaches says statements c k =
      Ensures-bind (IsMade []) (λ a c'. IsOver c') _ _
        (connect-IsMade attaches k.2.0 [] c k.2.1 k.2.2 k.1)
        (λ r c' k.
          Ensures-bind (λ a c'. Has isc [] c') (λ a c'. IsOver c') _ _
            (queries-Has says statements c' k.1)
            (λ a c' k. release-IsOver c'.connection k.0.0 c' k.0.1 k))
