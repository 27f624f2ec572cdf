-- ===== src/Pgsql/Connection/Handles.antt =====
-- The calls of libpq on the handle of a connection, and `_dbd_real_connect`.
use libdbi_drivers.Prelude.{
  ℕ, Bool, true, false, ◌||◌, Option, none, some, [], ◌∷◌, ◌≡◌, refl, ◌↔◌, ◌≢◌, inl, inr,
  Bool-cases, codes, arith, Bytes,
}
use libdbi_drivers.Prelude.Faults.{Ensures, Ensures-bind}
use libdbi_drivers.Prelude.Opened.{handles, is_open_self, without_self}
use libdbi_drivers.Prelude.Int.{ℤ, pos}
use libdbi_drivers.CString.{equal}
use libdbi_drivers.Pgsql.Conninfo.{Options, chosen_dbname, conninfo}
use libdbi_drivers.Pgsql.Encoding.{dbd_encoding_from_iana}
use libdbi_drivers.Pgsql.Connection.{
  Libpq, Conn, is_null, encoding_option, set_current_db, finish, on_handle, status_ok,
  _dbd_real_connect, connected, opened_as, set_encoding,
}

module _ (pq : Libpq) where
  -- The handles that are open are those that the connection holds: one or none.
  abbrev pub IsOwned : Conn pq → Type 0
  IsOwned c = c.opened ≡ handles c.connection

  abbrev pub Keeps : {A : Type 0} → Option (A × Conn pq) → Type 0
  Keeps = Ensures (λ a c. IsOwned c)

  -- The handle `h` is open, and no other.
  abbrev pub Holds : ℕ → Option ℕ → Conn pq → Type 0
  Holds h co c = (c.opened ≡ h ∷ []) × (c.connection ≡ co)

  pub finish-Ensures :
      (h : ℕ) (co : Option ℕ) (c : Conn pq)
      → Holds h co c
      → Ensures (λ a c'. (c'.opened ≡ []) × (c'.connection ≡ co)) (finish pq h c)
  finish-Ensures h co c (e, f) = ground (arith, is_open_self h, without_self h [])

  pub on_handle-Ensures :
      (h : ℕ) (co : Option ℕ) (g : pq.World → pq.World) (c : Conn pq)
      → Holds h co c
      → Ensures (λ a c'. Holds h co c') (on_handle pq h g c)
  on_handle-Ensures h co g c (e, f) = ground (arith, is_open_self h)

  pub status_ok-Ensures :
      (h : ℕ) (co : Option ℕ) (c : Conn pq)
      → Holds h co c
      → Ensures (λ a c'. Holds h co c') (status_ok pq h c)
  status_ok-Ensures h co c (e, f) = ground (arith, is_open_self h)

  set_encoding-Ensures :
      (h : ℕ) (co : Option ℕ) (enc : Bytes) (c : Conn pq)
      → Holds h co c
      → Ensures (λ a c'. Holds h co c') (set_encoding pq h enc c)
  unfolding set_encoding
  set_encoding-Ensures h co enc c k = elim (Bool-cases (is_null enc || equal enc (codes "auto"))) [
    | inl e ↦ rw (set_encoding, e) k
    | inr e ↦
        rw (set_encoding, e)
          (on_handle-Ensures h co (pq.set_client_encoding h (dbd_encoding_from_iana enc)) c k)
  ]

  set_current_db-Ensures :
      (h : ℕ) (co : Option ℕ) (o : Option Bytes) (c : Conn pq)
      → Holds h co c
      → Ensures (λ a c'. Holds h co c') (set_current_db pq o c)
  set_current_db-Ensures h co none c k = k
  set_current_db-Ensures h co (some db) c k = k

  -- A connection that was made is held, and one that failed is given back.
  abbrev pub Connects : ℤ → Conn pq → Type 0
  Connects r c = IsOwned c × ((r ≡ pos 0) ↔ (c.connection ≢ none))

  connected-Connects :
      (options : Options) (db : Bytes) (h : ℕ) (ok : Bool) (c : Conn pq)
      → c.opened ≡ h ∷ []
      → Ensures Connects (connected pq options db h ok c)
  unfolding connected
  connected-Connects options db h false c e =
      Ensures-bind (λ a c'. Holds h (some h) c') Connects _ _
        (on_handle-Ensures h (some h) (λ w. w) (record c { connection = some h }) (e, refl))
        (λ a c' k.
          Ensures-bind (λ a c''. (c''.opened ≡ []) × (c''.connection ≡ some h)) Connects _ _
            (finish-Ensures h (some h) c' k) (λ a c'' k. (k.0, ground arith)))
  connected-Connects options db h true c e =
      Ensures-bind (λ a c'. Holds h (some h) c') Connects _ _
        (set_current_db-Ensures h (some h) (chosen_dbname options db)
          (record c { connection = some h }) (e, refl))
        (λ a c' k.
          Ensures-bind (λ a c'. Holds h (some h) c') Connects _ _
            (set_encoding-Ensures h (some h) (encoding_option options) c' k)
            (λ a c' k. (rw k.1 k.0, ground arith)))

  -- There is no connection, and no handle is open.
  abbrev pub IsClosed : Conn pq → Type 0
  IsClosed c = (c.opened ≡ []) × (c.connection ≡ none)

  opened_as-Connects :
      (options : Options) (db : Bytes) (o : Option ℕ) (c : Conn pq)
      → c.opened ≡ handles o
      → c.connection ≡ none
      → Ensures Connects (opened_as pq options db o c)
  unfolding opened_as
  opened_as-Connects options db none c e n = (rw n e, ground arith)
  opened_as-Connects options db (some h) c e n =
      Ensures-bind (λ a c'. Holds h none c') Connects _ _ (status_ok-Ensures h none c (e, n))
        (λ ok c' k. connected-Connects options db h ok c' k.0)

  -- `_dbd_real_connect`, called with nothing open and no connection, calls libpq on no handle that is
  -- not open, and returns 0 if and only if the connection is then set; its handle is open and no other.
  -- On an error nothing is left open.
  pub _dbd_real_connect-Connects :
      (db : Bytes) (c : Conn pq) → IsClosed c → Ensures Connects (_dbd_real_connect pq db c)
  unfolding _dbd_real_connect
  _dbd_real_connect-Connects db c (e, n) =
      by_handle (pq.connectdb (conninfo pq.escape_chars pq.print_int c.options db) c.world).0
        (pq.connectdb (conninfo pq.escape_chars pq.print_int c.options db) c.world).1
    where
      by_handle :
          (o : Option ℕ) (w : pq.World)
          → Ensures Connects
              (elim (elim o as (λ x. Option (Option ℕ × Conn pq)) [
                | none ↦ some (none, record c { world = w })
                | some h ↦ some (some h, record c { world = w; opened = h ∷ c.opened })
              ])
                as (λ x. Option (ℤ × Conn pq)) [
                  | none ↦ none
                  | some x ↦ opened_as pq c.options db x.0 x.1
                ])
      by_handle none w = opened_as-Connects c.options db none (record c { world = w }) e n
      by_handle (some h) w =
          opened_as-Connects c.options db (some h) (record c { world = w; opened = h ∷ c.opened })
            (rw e refl) n
