-- ===== src/Mysql/Connection/Sessions.antt =====
-- Sessions over a connection of the MySQL driver.
use libdbi_drivers.Prelude.{
  ℕ, zero, suc, Option, none, some, List, [], ◌∷◌, ◌≡◌, refl, sym, inl, inr, Option-cases, arith,
  Bytes,
}
use libdbi_drivers.Prelude.Faults.{◌>>=◌, ◌>>◌, pure, Ensures, Ensures-bind, Ensures-map}
use libdbi_drivers.Prelude.Int.{ℤ, pos, negsuc}
use libdbi_drivers.Prelude.Opened.{handles}
use libdbi_drivers.Mysql.Client.{Mysql}
use libdbi_drivers.Mysql.Connection.{
  Conn, Action, dbd_query, dbd_connect, disconnect_from, dbd_disconnect, dbd_select_db,
  dbd_get_seq_last, dbd_ping,
}
use libdbi_drivers.Mysql.Connection.Handles.{
  Has, Keeps, NamesEncodings, Connects, IsClosed, close-opened, dbd_query-Keeps,
  dbd_select_db-Keeps, dbd_get_seq_last-Keeps, dbd_ping-Keeps, dbd_connect-Connects,
}

-- What the caller does between connecting and disconnecting.
pub data Op : Type 0 where
  query select_db : Bytes → Op
  seq_last ping : Op

module _ (my : Mysql) where
  abbrev ignore : {A : Type 0} → Action my A → Action my (Unit {0})
  ignore m = m >> pure tt

  unfoldable pub perform : Op → Action my (Unit {0})
  unfolding dbd_query dbd_select_db dbd_get_seq_last dbd_ping
  perform (query statement) = ignore (dbd_query my statement)
  perform (select_db db) = ignore (dbd_select_db my db)
  perform seq_last = ignore (dbd_get_seq_last my)
  perform ping = ignore (dbd_ping my)

  unfoldable pub perform_all : List Op → Action my (Unit {0})
  unfolding perform
  perform_all [] = pure tt
  perform_all (op ∷ ops) = perform op >> perform_all ops

  -- The operations are carried out if `dbd_connect` returned 0.
  unfoldable pub operate : List Op → ℤ → Action my (Unit {0})
  unfolding perform_all
  operate ops (pos zero) = perform_all ops
  operate ops r = pure tt

  unfoldable pub session : List Op → Action my (Unit {0})
  unfolding dbd_connect operate dbd_disconnect
  session ops = do r ← dbd_connect my; operate ops r; dbd_disconnect my

  module _ (h : ℕ) (enc : Option Bytes) where
    ignore-Keeps :
        {A : Type 0} (m : Option (A × Conn my))
        → Keeps my h enc m
        → Keeps my h enc (elim m [ none ↦ none | some (a, c) ↦ some (tt, c) ])
    ignore-Keeps m k =
        Ensures-bind (λ a c'. Has my h enc c') (λ a c'. Has my h enc c') m _ k (λ a c' k. k)

    perform-Keeps : (op : Op) (c : Conn my) → Has my h enc c → Keeps my h enc (perform op c)
    unfolding perform
    perform-Keeps (query statement) c k = ignore-Keeps _ (dbd_query-Keeps my h enc statement c k)
    perform-Keeps (select_db db) c k = ignore-Keeps _ (dbd_select_db-Keeps my h enc db c k)
    perform-Keeps seq_last c k = ignore-Keeps _ (dbd_get_seq_last-Keeps my h enc c k)
    perform-Keeps ping c k = ignore-Keeps _ (dbd_ping-Keeps my h enc c k)

    perform_all-Keeps :
        (ops : List Op) (c : Conn my) → Has my h enc c → Keeps my h enc (perform_all ops c)
    unfolding perform_all
    perform_all-Keeps [] c k = k
    perform_all-Keeps (op ∷ ops) c k =
        Ensures-bind (λ a c'. Has my h enc c') (λ a c'. Has my h enc c') (perform op c) _
          (perform-Keeps op c k) (λ a c' k. perform_all-Keeps ops c' k)

  -- The handles of the connection are open, and no other.
  abbrev Owns : Option Bytes → Conn my → Type 0
  Owns enc c = (c.opened ≡ handles c.connection) × (c.encoding ≡ enc)

  operate-Owns :
      (enc : Option Bytes) (ops : List Op) (r : ℤ) (c : Conn my)
      → Connects my enc r c
      → Ensures (λ a c'. Owns enc c') (operate ops r c)
  unfolding operate
  operate-Owns enc ops (pos zero) c (e, n, k) = elim (Option-cases c.connection) [
    | inl none_there ↦ absurd (k.0 refl none_there)
    | inr (h, there) ↦
        Ensures-map (λ a c'. Has my h enc c') (λ a c'. Owns enc c') (perform_all ops c)
          (perform_all-Keeps h enc ops c (ground arith, there, n))
          (λ a c' (opened, there, n). (rw there opened, n))
  ]
  operate-Owns enc ops (pos (suc m)) c (e, n, k) = (e, n)
  operate-Owns enc ops (negsuc m) c (e, n, k) = (e, n)

  disconnect_from-opened :
      (enc : Option Bytes) (o : Option ℕ) (c : Conn my)
      → o ≡ c.connection
      → Owns enc c
      → Ensures (λ a c'. c'.opened ≡ []) (disconnect_from my o c)
  unfolding disconnect_from
  disconnect_from-opened enc none c e (k, n) = ground arith
  disconnect_from-opened enc (some h) c e (k, n) =
      Ensures-map (λ a c'. (c'.opened ≡ []) × (c'.encoding ≡ enc)) (λ a c'. c'.opened ≡ []) _
        (close-opened my h (some h) enc c (ground arith, sym e, n)) (λ a c' k. k.0)

  -- A session that begins with nothing open and no connection, where setting the encoding reads no memory that
  -- is freed: it connects, if that succeeds carries out any operations, and disconnects. It calls the
  -- library on no handle that is not open and on no null pointer, whatever the library answers, and
  -- in the end no handle is open.
  pub mysql_session-opened :
      (ops : List Op) (c : Conn my)
      → NamesEncodings my c.encoding
      → IsClosed my c
      → Ensures (λ a c'. c'.opened ≡ []) (session ops c)
  unfolding session dbd_disconnect
  mysql_session-opened ops c names k =
      Ensures-bind (Connects my c.encoding) (λ a c'. c'.opened ≡ []) (dbd_connect my c) _
        (dbd_connect-Connects my c names k)
        (λ r c' k.
          Ensures-bind (λ a c''. Owns c.encoding c'') (λ a c'. c'.opened ≡ []) (operate ops r c') _
            (operate-Owns c.encoding ops r c' k)
            (λ a c'' k. disconnect_from-opened c.encoding c''.connection c'' refl k))
