-- ===== src/Sqlite3/Session/Opened.antt =====
-- The handles that a session of the SQLite3 driver has open.
use libdbi_drivers.Prelude.{
  ℕ, true, Option, none, some, List, [], ◌∷◌, ◌≡◌, refl, inl, inr, Bool-cases, Bytes, codes,
}
use libdbi_drivers.CString.{equal}
use libdbi_drivers.Prelude.Faults.{◌>>◌, pure, Ensures, Ensures-bind, Ensures-map}
use libdbi_drivers.Prelude.Int.{ℤ, pos}
use libdbi_drivers.Prelude.Opened.{is_open, is_open_self, without_self}
use libdbi_drivers.Sqlite3.Connect.{
  Opening, refused, undefined, open8, open16, chosen_dbname, chosen_encoding, opening, busy_timeout,
}
use libdbi_drivers.Sqlite3.Session.{
  OpenResult, opened, error, add_handle, Sqlite, Conn, Action, on_handle, the_handle, close_if,
  set_timeout, query, connected, open_database, _real_dbd_connect, dbd_connect, dbd_disconnect,
  dbd_select_db, dbd_get_seq_last, dbd_ping,
}

-- What the caller does between connecting and disconnecting.
pub data Op : Type 0 where
  run select_db : Bytes → Op
  seq_last ping : Op

-- The call succeeds.
abbrev pub IsOpened : OpenResult → Type 0
IsOpened (opened h) = Unit {0}
IsOpened (error o) = ⊥

-- A file is opened.
abbrev pub IsFile : Opening → Type 0
IsFile refused = ⊥
IsFile undefined = ⊥
IsFile (open8 path) = Unit {0}
IsFile (open16 path) = Unit {0}

opening-IsFile :
    (database : Bytes) (dbname encoding : Option Bytes) (d : ℕ) (name dir : Bytes)
    → chosen_dbname database dbname ≡ some name
    → IsFile (opening database dbname encoding (some (d ∷ dir)))
unfolding opening
opening-IsFile database dbname encoding d name dir e =
    rw (e, opening)
      (elim (Bool-cases (equal (chosen_encoding encoding) (codes "UTF-8"))) [
        | inl u ↦ rw u tt
        | inr u ↦ rw u tt
      ])

module _ (sq : Sqlite) where
  -- Every file can be opened.
  abbrev pub Opens : Type 0
  Opens =
      (path : Bytes) (w : sq.World) → IsOpened (sq.open8 path w).0 × IsOpened (sq.open16 path w).0

  abbrev ignore : {A : Type 0} → Action sq A → Action sq (Unit {0})
  ignore m = m >> pure tt

  unfoldable pub perform : Op → Action sq (Unit {0})
  unfolding dbd_select_db dbd_get_seq_last dbd_ping
  perform (run statement) = ignore (query sq statement)
  perform (select_db db) = ignore (dbd_select_db sq db)
  perform seq_last = ignore (dbd_get_seq_last sq)
  perform ping = ignore (dbd_ping sq)

  unfoldable pub perform_all : List Op → Action sq (Unit {0})
  unfolding perform
  perform_all [] = pure tt
  perform_all (op ∷ ops) = perform op >> perform_all ops

  unfoldable pub session : List Op → Action sq (Unit {0})
  unfolding dbd_connect perform_all dbd_disconnect
  session ops = do dbd_connect sq; perform_all ops; dbd_disconnect sq

  -- A directory is given that is not empty.
  abbrev pub HasDirectory : Conn sq → Type 0
  HasDirectory c = (d : ℕ) × (dir : Bytes) × (c.dbdir ≡ some (d ∷ dir))

  -- The connection has the handle `h`, which is open, and no other.
  abbrev Holds : ℕ → Conn sq → Type 0
  Holds h c = (c.handles ≡ h ∷ []) × (c.connection ≡ some h) × HasDirectory c

  abbrev pub Has : Conn sq → Type 0
  Has c = (h : ℕ) × Holds h c

  module _ (h : ℕ) where
    is_open-Holds : (c : Conn sq) → c.handles ≡ h ∷ [] → is_open c.handles h ≡ true
    is_open-Holds c e = rw e (is_open_self h)

    on_handle-Holds :
        {A : Type 0} (f : sq.World → A × sq.World) (c : Conn sq)
        → Holds h c
        → Ensures (λ a c'. Holds h c') (on_handle sq h f c)
    on_handle-Holds f c (e, k, n) = rw (is_open-Holds c e, Ensures) (e, k, n)

    call-Holds :
        {A : Type 0} (f : ℕ → sq.World → A × sq.World) (o : Option ℕ) (c : Conn sq)
        → o ≡ some h
        → Holds h c
        → Ensures (λ a c'. Holds h c') (the_handle sq (λ h. on_handle sq h (f h)) o c)
    call-Holds f o c e k = rw e (on_handle-Holds (f h) c k)

    close_if-handles :
        (o : Option ℕ) (c : Conn sq)
        → o ≡ some h
        → Holds h c
        → Ensures (λ a c'. (c'.handles ≡ []) × HasDirectory c') (close_if sq o c)
    close_if-handles o c e (k, m, n) =
        rw e (rw (is_open-Holds c k, Ensures) (rw k (without_self h []), n))

  -- The connection is made.
  abbrev IsMade : ℤ → Conn sq → Type 0
  IsMade r c = (r ≡ pos 0) × Has c

  query-Holds :
      (h : ℕ) (statement : Bytes) (c : Conn sq)
      → Holds h c
      → Ensures (λ a c'. Holds h c') (query sq statement c)
  query-Holds h statement c k = call-Holds h (λ h. sq.get_table h statement) c.connection c k.1 k

  connected-IsMade :
      (database : Bytes) (h : ℕ) (c : Conn sq)
      → c.handles ≡ h ∷ []
      → HasDirectory c
      → Ensures IsMade (connected sq database (opened h) c)
  unfolding connected
  connected-IsMade database h c e n =
      Ensures-bind (λ a c'. Holds h c') IsMade
        (set_timeout sq h
          (record c { connection = some h; current_db = chosen_dbname database c.dbname }))
        _
        (on_handle-Holds h
          (λ w. (tt, sq.set_busy_timeout h (busy_timeout c.sqlite3_timeout c.timeout) w))
          (record c { connection = some h; current_db = chosen_dbname database c.dbname })
          (e, refl, n))
        (λ a c' k.
          Ensures-bind (λ a c''. Holds h c'') IsMade (query sq _ c') _ (query-Holds h _ c' k)
            (λ a c'' k. (refl, (h, k))))

  open_by-IsMade :
      (database : Bytes) (r : OpenResult) (w : sq.World) (c : Conn sq)
      → IsOpened r
      → c.handles ≡ []
      → HasDirectory c
      → Ensures IsMade
          (connected sq database r (record c { world = w; handles = add_handle r c.handles }))
  open_by-IsMade database (opened h) w c o e n =
      connected-IsMade database h (record c { world = w; handles = h ∷ c.handles }) (rw e refl) n
  open_by-IsMade database (error e) w c o k n = absurd o

  open_database-IsMade :
      Opens
      → (database : Bytes) (o : Opening) (c : Conn sq) → IsFile o
      → c.handles ≡ []
      → HasDirectory c
      → Ensures IsMade (open_database sq database o c)
  unfolding open_database
  open_database-IsMade opens database refused c f e n = absurd f
  open_database-IsMade opens database undefined c f e n = absurd f
  open_database-IsMade opens database (open8 path) c f e n =
      open_by-IsMade database _ _ c (opens path c.world).0 e n
  open_database-IsMade opens database (open16 path) c f e n =
      open_by-IsMade database _ _ c (opens path c.world).1 e n

  connect-IsMade :
      Opens
      → (database name : Bytes) (c : Conn sq) → chosen_dbname database c.dbname ≡ some name
      → c.handles ≡ []
      → HasDirectory c
      → Ensures IsMade (_real_dbd_connect sq database c)
  unfolding _real_dbd_connect
  connect-IsMade opens database name c chosen e (d, dir, n) =
      open_database-IsMade opens database _ c
        (rw n (opening-IsFile database c.dbname c.encoding d name dir chosen)) e (d, dir, n)

  ignore-Has :
      {A : Type 0} (m : Option (A × Conn sq))
      → Ensures (λ a c'. Has c') m
      → Ensures (λ a c'. Has c') (elim m [ none ↦ none | some (a, c) ↦ some (tt, c) ])
  ignore-Has m k = Ensures-bind (λ a c'. Has c') (λ a c'. Has c') m _ k (λ a c' k. k)

  dbd_select_db-Has :
      Opens → (db : Bytes) (c : Conn sq) → Has c → Ensures (λ a c'. Has c') (dbd_select_db sq db c)
  unfolding dbd_select_db
  dbd_select_db-Has opens [] c k = k
  dbd_select_db-Has opens (d ∷ db) c (h, k) =
      Ensures-bind (λ a c'. (c'.handles ≡ []) × HasDirectory c') (λ a c'. Has c')
        (close_if sq c.connection c) _ (close_if-handles h c.connection c k.1 k)
        (λ a c' m.
          Ensures-bind IsMade (λ a c'. Has c') (_real_dbd_connect sq (d ∷ db) c') _
            (connect-IsMade opens (d ∷ db) (d ∷ db) c' refl m.0 m.1) (λ r c'' made. made.1))

  any-Has :
      {A : Type 0} (h : ℕ) (m : Option (A × Conn sq))
      → Ensures (λ a c'. Holds h c') m
      → Ensures (λ a c'. Has c') m
  any-Has h m k = Ensures-map (λ a c'. Holds h c') (λ a c'. Has c') m k (λ a c' k. (h, k))

  perform-Has : Opens → (op : Op) (c : Conn sq) → Has c → Ensures (λ a c'. Has c') (perform op c)
  unfolding perform dbd_get_seq_last dbd_ping
  perform-Has opens (run statement) c (h, k) =
      ignore-Has _ (any-Has h _ (query-Holds h statement c k))
  perform-Has opens (select_db db) c k = ignore-Has _ (dbd_select_db-Has opens db c k)
  perform-Has opens seq_last c (h, k) =
      ignore-Has _
        (any-Has h _ (call-Holds h (λ h w. (sq.last_insert_rowid h w, w)) c.connection c k.1 k))
  perform-Has opens ping c (h, k) = ignore-Has (dbd_ping sq c) (
      Ensures-bind (λ a c'. Holds h c') (λ a c'. Has c') (query sq _ c) _ (query-Holds h _ c k)
        (λ ok c' k. (h, k)))

  perform_all-Has :
      Opens → (ops : List Op) (c : Conn sq) → Has c → Ensures (λ a c'. Has c') (perform_all ops c)
  unfolding perform_all
  perform_all-Has opens [] c k = k
  perform_all-Has opens (op ∷ ops) c k =
      Ensures-bind (λ a c'. Has c') (λ a c'. Has c') (perform op c) _ (perform-Has opens op c k)
        (λ a c' k. perform_all-Has opens ops c' k)

  -- Where every file can be opened: a session that begins with nothing open, a name for the database and a
  -- directory that is not empty, connects, carries out any queries and changes of the database,
  -- readings of the last number and pings, and disconnects, calls SQLite on no handle that is not open
  -- and on no null pointer, whatever else SQLite answers, and in the end no handle is open.
  pub sqlite3_session-handles :
      Opens
      → (ops : List Op) (c : Conn sq) (name : Bytes) → c.dbname ≡ some name
      → c.handles ≡ []
      → HasDirectory c
      → Ensures (λ a c'. c'.handles ≡ []) (session ops c)
  unfolding session dbd_connect dbd_disconnect
  sqlite3_session-handles opens ops c name named e n =
      Ensures-bind IsMade (λ a c'. c'.handles ≡ []) (dbd_connect sq c) _
        (connect-IsMade opens [] name c named e n)
        (λ r c' made.
          Ensures-bind (λ a c'. Has c') (λ a c'. c'.handles ≡ []) (perform_all ops c') _
            (perform_all-Has opens ops c' made.1)
            (λ a c'' (h, k).
              Ensures-map (λ a c'. (c'.handles ≡ []) × HasDirectory c') (λ a c'. c'.handles ≡ [])
                (close_if sq c''.connection c'') (close_if-handles h c''.connection c'' k.1 k)
                (λ a c' k. k.0)))
