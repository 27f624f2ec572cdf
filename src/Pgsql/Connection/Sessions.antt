-- ===== src/Pgsql/Connection/Sessions.antt =====
-- What becomes of the handles of a connection in the operations after it is made.
use libdbi_drivers.Prelude.{
  ℕ, Bool, true, false, Option, none, some, List, [], ◌∷◌, ◌≡◌, refl, codes, arith, Bytes,
}
use libdbi_drivers.Prelude.Faults.{◌>>◌, pure, Ensures, Ensures-bind, Ensures-map}
use libdbi_drivers.Prelude.Opened.{handles, is_open_self}
use libdbi_drivers.Pgsql.Connection.{
  Libpq, Conn, finish, Action, _dbd_real_connect, finish_if, exec_on, dbd_disconnect, dbd_select_db,
  dbd_query, dbd_get_seq_last, dbd_get_seq_next, dbd_ping, reset_if_bad, ping_status,
}
use libdbi_drivers.Pgsql.Connection.Handles.{
  IsOwned, Keeps, finish-Ensures, on_handle-Ensures, status_ok-Ensures, Connects, IsClosed,
  _dbd_real_connect-Connects,
}

-- What the caller does between connecting and disconnecting.
pub data Op : Type 0 where
  select_db query seq_last seq_next : Bytes → Op
  ping : Op

module _ (pq : Libpq) where
  -- The connection is `o`, and its handles are open.
  abbrev Has : Option ℕ → Conn pq → Type 0
  Has o c = (c.opened ≡ handles o) × (c.connection ≡ o)

  finish_if-Ensures :
      (o : Option ℕ) (c : Conn pq) → Has o c → Ensures (λ a c'. c'.opened ≡ []) (finish_if pq o c)
  unfolding finish_if
  finish_if-Ensures none c k = k.0
  finish_if-Ensures (some h) c k =
      Ensures-map (λ a c'. (c'.opened ≡ []) × (c'.connection ≡ some h)) (λ a c'. c'.opened ≡ [])
        (finish pq h c) (finish-Ensures pq h (some h) c k) (λ a c' e. e.0)

  dbd_disconnect-opened :
      (c : Conn pq) → IsOwned pq c → Ensures (λ a c'. c'.opened ≡ []) (dbd_disconnect pq c)
  unfolding dbd_disconnect
  dbd_disconnect-opened c k = finish_if-Ensures c.connection c (k, refl)

  dbd_select_db-Keeps : (db : Bytes) (c : Conn pq) → IsOwned pq c → Keeps pq (dbd_select_db pq db c)
  unfolding dbd_select_db
  dbd_select_db-Keeps [] c k = k
  dbd_select_db-Keeps (x ∷ db) c k =
      Ensures-bind (λ a c'. c'.opened ≡ []) (λ a c'. IsOwned pq c') _ _
        (finish_if-Ensures c.connection c (k, refl))
        (λ a c' e.
          Ensures-bind (Connects pq) (λ a c'. IsOwned pq c') _ _
            (_dbd_real_connect-Connects pq (x ∷ db) (record c' { connection = none }) (e, refl))
            (λ r c' k. k.0))

  exec_on-Ensures :
      (o : Option ℕ) (statement : Bytes) (c : Conn pq)
      → Has o c
      → Ensures (λ a c'. Has o c') (exec_on pq o statement c)
  unfolding exec_on
  exec_on-Ensures none statement c k = k
  exec_on-Ensures (some h) statement c (e, f) = ground (arith, is_open_self h)

  dbd_query-Keeps :
      (statement : Bytes) (c : Conn pq) → IsOwned pq c → Keeps pq (dbd_query pq statement c)
  unfolding dbd_query
  dbd_query-Keeps statement c k =
      Ensures-bind (λ a c'. Has c.connection c') (λ a c'. IsOwned pq c') _ _
        (exec_on-Ensures c.connection statement c (k, refl)) (λ a c' h. rw h.1 h.0)

  dbd_get_seq_last-Keeps :
      (sequence : Bytes) (c : Conn pq) → IsOwned pq c → Keeps pq (dbd_get_seq_last pq sequence c)
  unfolding dbd_get_seq_last
  dbd_get_seq_last-Keeps sequence c k =
      Ensures-bind (λ a c'. IsOwned pq c') (λ a c'. IsOwned pq c') _ _ (dbd_query-Keeps _ c k)
        (λ a c' h. h)

  dbd_get_seq_next-Keeps :
      (sequence : Bytes) (c : Conn pq) → IsOwned pq c → Keeps pq (dbd_get_seq_next pq sequence c)
  unfolding dbd_get_seq_next
  dbd_get_seq_next-Keeps sequence c k =
      Ensures-bind (λ a c'. IsOwned pq c') (λ a c'. IsOwned pq c') _ _ (dbd_query-Keeps _ c k)
        (λ a c' h. h)

  ping_status-Ensures :
      (o : Option ℕ) (c : Conn pq) → Has o c → Ensures (λ a c'. Has o c') (ping_status pq o c)
  unfolding ping_status
  ping_status-Ensures none c k = k
  ping_status-Ensures (some h) c k = status_ok-Ensures pq h (some h) c k

  reset_if_bad-Ensures :
      (o : Option ℕ) (ok : Bool) (c : Conn pq)
      → Has o c
      → Ensures (λ a c'. Has o c') (reset_if_bad pq o ok c)
  unfolding reset_if_bad
  reset_if_bad-Ensures none true c k = k
  reset_if_bad-Ensures (some h) true c k = k
  reset_if_bad-Ensures none false c k = k
  reset_if_bad-Ensures (some h) false c k =
      Ensures-bind (λ a c'. Has (some h) c') (λ a c'. Has (some h) c') _ _
        (on_handle-Ensures pq h (some h) (pq.reset h) c k)
        (λ a c' k. ping_status-Ensures (some h) c' k)

  dbd_ping-Keeps : (c : Conn pq) → IsOwned pq c → Keeps pq (dbd_ping pq c)
  unfolding dbd_ping
  dbd_ping-Keeps c k =
      Ensures-bind (λ a c'. Has c.connection c') (λ a c'. IsOwned pq c') _ _
        (exec_on-Ensures c.connection (codes "SELECT 1") c (k, refl))
        (λ a c' k.
          Ensures-bind (λ a c'. Has c.connection c') (λ a c'. IsOwned pq c') _ _
            (ping_status-Ensures c.connection c' k)
            (λ ok c' k.
              Ensures-map (λ a c'. Has c.connection c') (λ a c'. IsOwned pq c') _
                (reset_if_bad-Ensures c.connection ok c' k) (λ a c' h. rw h.1 h.0)))

  abbrev ignore : {A : Type 0} → Action pq A → Action pq (Unit {0})
  ignore m = m >> pure tt

  unfoldable pub perform : Op → Action pq (Unit {0})
  unfolding dbd_select_db dbd_query dbd_get_seq_last dbd_get_seq_next dbd_ping
  perform (select_db db) = ignore (dbd_select_db pq db)
  perform (query statement) = ignore (dbd_query pq statement)
  perform (seq_last sequence) = ignore (dbd_get_seq_last pq sequence)
  perform (seq_next sequence) = ignore (dbd_get_seq_next pq sequence)
  perform ping = ignore (dbd_ping pq)

  unfoldable pub perform_all : List Op → Action pq (Unit {0})
  unfolding perform
  perform_all [] = pure tt
  perform_all (op ∷ ops) = perform op >> perform_all ops

  -- `dbd_connect`, whatever it returns, the operations, and `dbd_disconnect`.
  unfoldable pub session : List Op → Action pq (Unit {0})
  unfolding _dbd_real_connect perform_all dbd_disconnect
  session ops = do _dbd_real_connect pq []; perform_all ops; dbd_disconnect pq

  ignore-Keeps :
      {A : Type 0} (m : Option (A × Conn pq))
      → Keeps pq m
      → Keeps pq (elim m [ none ↦ none | some (a, c) ↦ some (tt, c) ])
  ignore-Keeps m k =
      Ensures-bind (λ a c'. IsOwned pq c') (λ a c'. IsOwned pq c') m _ k (λ a c' h. h)

  perform-Keeps : (op : Op) (c : Conn pq) → IsOwned pq c → Keeps pq (perform op c)
  unfolding perform
  perform-Keeps (select_db db) c k = ignore-Keeps _ (dbd_select_db-Keeps db c k)
  perform-Keeps (query statement) c k = ignore-Keeps _ (dbd_query-Keeps statement c k)
  perform-Keeps (seq_last sequence) c k = ignore-Keeps _ (dbd_get_seq_last-Keeps sequence c k)
  perform-Keeps (seq_next sequence) c k = ignore-Keeps _ (dbd_get_seq_next-Keeps sequence c k)
  perform-Keeps ping c k = ignore-Keeps _ (dbd_ping-Keeps c k)

  perform_all-Keeps : (ops : List Op) (c : Conn pq) → IsOwned pq c → Keeps pq (perform_all ops c)
  unfolding perform_all
  perform_all-Keeps [] c k = k
  perform_all-Keeps (op ∷ ops) c k =
      Ensures-bind (λ a c'. IsOwned pq c') (λ a c'. IsOwned pq c') _ _ (perform-Keeps op c k)
        (λ a c' h. perform_all-Keeps ops c' h)

  -- A session of the driver that begins with nothing open and no connection, connects, carries out any
  -- operations, and disconnects, calls libpq on no handle that is not open, whatever libpq answers to
  -- each call, and in the end no handle is open.
  pub session-opened :
      (ops : List Op) (c : Conn pq)
      → IsClosed pq c
      → Ensures (λ a c'. c'.opened ≡ []) (session ops c)
  unfolding session
  session-opened ops c k =
      Ensures-bind (Connects pq) (λ a c'. c'.opened ≡ []) _ _ (_dbd_real_connect-Connects pq [] c k)
        (λ r c' h.
          Ensures-bind (λ a c'. IsOwned pq c') (λ a c'. c'.opened ≡ []) _ _
            (perform_all-Keeps ops c' h.0) (λ a c' h. dbd_disconnect-opened c' h))
