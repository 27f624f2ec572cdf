-- ===== src/Ingres/Connection/Closed.antt =====
-- The handles of connections that the Ingres driver leaves.
use libdbi_drivers.Prelude.{
  ℕ, Bool, true, false, Option, none, some, List, [], ◌∷◌, ◌≡◌, refl, ◌⊎◌, inl, inr, Bytes, codes,
}
use libdbi_drivers.Prelude.Faults.{◌>>◌, pure, Ensures, Ensures-bind}
use libdbi_drivers.Prelude.Int.{ℤ, pos, negsuc}
use libdbi_drivers.Prelude.Opened.{without_self}
use libdbi_drivers.Ingres.Connection.{
  Param, Api, Iconn, Conn, kept, add, add_new, Action, set_segment, set_to, set_all, settings,
  iconn_of, leave_autocommit, disconnect_handle, disconnect_from, dbd_disconnect, enable, connected,
  ingres_connect, dbd_connect, dbd_select_db,
}

add_new-add :
    (handle new : Option ℕ) (hs : List ℕ)
    → add_new handle new (add handle hs) ≡ add (kept handle new) hs
add_new-add none new hs = refl
add_new-add (some h) new hs = refl

module _ (api : Api) (option : Bytes → Option Bytes) where
  -- Besides the handle of the connection, if there is one, `hs` are open.
  abbrev pub Owns : List ℕ → Option Iconn → List ℕ → Type 0
  Owns hs none handles = handles ≡ hs
  Owns hs (some ic) handles = handles ≡ add ic.conn_handle hs

  abbrev pub Has : List ℕ → Conn api → Type 0
  Has hs c = Owns hs c.connection c.handles

  module _ (hs : List ℕ) where
    set_segment-handles :
        (o : Option Bytes) (c : Conn api)
        → c.handles ≡ hs
        → Ensures (λ a c'. c'.handles ≡ hs) (set_segment api option o c)
    set_segment-handles none c e = e
    set_segment-handles (some opt) c e = e

    set_to-handles :
        (o : Option Bytes) (is_number : Bool) (id : Param) (handle : Option ℕ) (c : Conn api)
        → c.handles ≡ add handle hs
        → Ensures
            (λ handle' c'. c'.handles ≡ add handle' hs)
            (set_to api option o is_number id handle c)
    set_to-handles none is_number id handle c e = e
    set_to-handles (some opt) is_number id handle c e = rw e (add_new-add handle _ hs)

    set_all-handles :
        (rest : List (Bool × Param × Bytes)) (handle : Option ℕ) (c : Conn api)
        → c.handles ≡ add handle hs
        → Ensures (λ handle' c'. c'.handles ≡ add handle' hs) (set_all api option rest handle c)
    unfolding set_all
    set_all-handles [] handle c e = e
    set_all-handles ((is_number, id, name) ∷ rest) handle c e =
        Ensures-bind (λ handle' c'. c'.handles ≡ add handle' hs)
          (λ handle' c'. c'.handles ≡ add handle' hs)
          (set_to api option (option name) is_number id handle c) _
          (set_to-handles (option name) is_number id handle c e)
          (λ handle' c' k. set_all-handles rest handle' c' k)

    leave_autocommit-handles :
        (ic : Iconn) (auto : Bool) (c : Conn api)
        → c.handles ≡ add ic.conn_handle hs
        → Ensures
            (λ a c'. c'.handles ≡ add ic.conn_handle hs)
            (leave_autocommit api option ic auto c)
    leave_autocommit-handles ic false c e = e
    leave_autocommit-handles ic true c e = e

    disconnect_handle-handles :
        (o : Option ℕ) (c : Conn api)
        → c.handles ≡ add o hs
        → Ensures (λ a c'. c'.handles ≡ hs) (disconnect_handle api option o c)
    disconnect_handle-handles none c e = e
    disconnect_handle-handles (some h) c e = rw e (without_self h hs)

    abbrev IsGone : Conn api → Type 0
    IsGone c = (c.connection ≡ none) × (c.handles ≡ hs)

    disconnect_from-IsGone :
        (o : Option Iconn) (c : Conn api)
        → o ≡ c.connection
        → Owns hs o c.handles
        → Ensures (λ a c'. IsGone c') (disconnect_from api option o c)
    unfolding disconnect_from
    disconnect_from-IsGone none c e k = (cc, k)
    disconnect_from-IsGone (some ic) c e k =
        Ensures-bind (λ a c'. c'.handles ≡ add ic.conn_handle hs) (λ a c'. IsGone c')
          (leave_autocommit api option ic ic.autocommit c) _
          (leave_autocommit-handles ic ic.autocommit c k)
          (λ a c' k.
            Ensures-bind (λ a c'. c'.handles ≡ hs) (λ a c'. IsGone c')
              (disconnect_handle api option ic.conn_handle c') _
              (disconnect_handle-handles ic.conn_handle c' k) (λ a c' k. (refl, k)))

    dbd_disconnect-IsGone :
        (c : Conn api) → Has hs c → Ensures (λ a c'. IsGone c') (dbd_disconnect api option c)
    unfolding dbd_disconnect
    dbd_disconnect-IsGone c k = disconnect_from-IsGone c.connection c refl k

    -- The connection is made, or -1 is returned and nothing is left of it.
    abbrev pub Connects : ℤ → Conn api → Type 0
    Connects r c =
        ((r ≡ pos 0)
          × ((ic : Iconn) × (c.connection ≡ some ic) × (c.handles ≡ add ic.conn_handle hs)))
        ⊎ ((r ≡ negsuc 0) × (c.connection ≡ none) × (c.handles ≡ hs))

    enable-Connects :
        (ic : Iconn) (auto : Bool) (c : Conn api)
        → c.connection ≡ some ic
        → c.handles ≡ add ic.conn_handle hs
        → Ensures Connects (enable api option ic.conn_handle auto c)
    unfolding enable
    enable-Connects ic false c e k = inl (refl, (ic, e, k))
    enable-Connects ic true c e k = inl (refl, (_, refl, k))

    connected-Connects :
        (ic : Iconn) (autocommit : Option Bytes) (ok : Bool) (c : Conn api)
        → c.connection ≡ some ic
        → c.handles ≡ add ic.conn_handle hs
        → Ensures Connects (connected api option ic.conn_handle autocommit ok c)
    unfolding connected
    connected-Connects ic autocommit true c e k = enable-Connects ic _ c e k
    connected-Connects ic autocommit false c e k =
        Ensures-bind (λ a c'. IsGone c') Connects (dbd_disconnect api option c) _
          (dbd_disconnect-IsGone c (rw e k)) (λ a c' (n, k). inr (refl, n, k))

    given-Connects :
        (handle : Option ℕ) (autocommit : Option Bytes) (new : Option ℕ) (ok : Bool) (w : api.World)
        (c : Conn api)
        → c.handles ≡ add handle hs
        → Ensures Connects (
            connected api option (kept handle new) autocommit ok (record {
              connection = some (iconn_of api option (kept handle new) none false);
              world = w;
              handles = add_new handle new c.handles;
            }))
    given-Connects handle autocommit new ok w c k =
        connected-Connects (iconn_of api option (kept handle new) none false) autocommit ok _ refl
          (rw k (add_new-add handle new hs))

    pub ingres_connect-Connects :
        (db autocommit : Option Bytes) (c : Conn api)
        → c.handles ≡ hs
        → Ensures Connects (ingres_connect api option db autocommit c)
    unfolding ingres_connect
    ingres_connect-Connects db autocommit c e =
        Ensures-bind (λ a c'. c'.handles ≡ hs) Connects
          (set_segment api option (option (codes "ingres_blobsegment")) _) _
          (set_segment-handles (option (codes "ingres_blobsegment")) _ e)
          (λ a c' k.
            Ensures-bind (λ handle c'. c'.handles ≡ add handle hs) Connects
              (set_all api option settings none c') _ (set_all-handles settings none c' k)
              (λ handle c' k. given-Connects handle autocommit _ _ _ c' k))

    Connects-Has : (r : ℤ) (c : Conn api) → Connects r c → Has hs c
    Connects-Has r c (inl (z, (ic, n, k))) = rw n k
    Connects-Has r c (inr (z, n, k)) = rw n k

    dbd_select_db-Has :
        (db : Bytes) (c : Conn api)
        → Has hs c
        → Ensures (λ a c'. Has hs c') (dbd_select_db api option db c)
    unfolding dbd_select_db
    dbd_select_db-Has [] c k = k
    dbd_select_db-Has (d ∷ db) c k =
        Ensures-bind (λ a c'. IsGone c') (λ a c'. Has hs c') (dbd_disconnect api option c) _
          (dbd_disconnect-IsGone c k)
          (λ a c' (n, k).
            Ensures-bind Connects (λ a c'. Has hs c')
              (ingres_connect api option (some (d ∷ db)) (option (codes "ingres_autocommit")) c') _
              (ingres_connect-Connects (some (d ∷ db)) (option (codes "ingres_autocommit")) c' k)
              (λ r c'' m. Connects-Has r c'' m))

  unfoldable pub select_all : List Bytes → Action api option (Unit {0})
  unfolding dbd_select_db
  select_all [] = pure tt
  select_all (db ∷ dbs) = do dbd_select_db api option db; select_all dbs

  unfoldable pub session : List Bytes → Action api option (Unit {0})
  unfolding dbd_connect select_all dbd_disconnect
  session dbs = do dbd_connect api option; select_all dbs; dbd_disconnect api option

  select_all-Has :
      (hs : List ℕ) (dbs : List Bytes) (c : Conn api)
      → Has hs c
      → Ensures (λ a c'. Has hs c') (select_all dbs c)
  unfolding select_all
  select_all-Has hs [] c k = k
  select_all-Has hs (db ∷ dbs) c k =
      Ensures-bind (λ a c'. Has hs c') (λ a c'. Has hs c') (dbd_select_db api option db c) _
        (dbd_select_db-Has hs db c k) (λ a c' k. select_all-Has hs dbs c' k)

  -- A session that begins where the handles `hs` are open, connects, changes to any databases, each of which
  -- succeeds or fails, and disconnects, leaves no connection and the handles `hs` open and no other,
  -- whatever the Ingres API answers. So no handle is lost that is given with an error or for the
  -- options.
  pub ingres_session-handles :
      (hs : List ℕ) (dbs : List Bytes) (c : Conn api)
      → c.handles ≡ hs
      → Ensures (λ a c'. (c'.connection ≡ none) × (c'.handles ≡ hs)) (session dbs c)
  unfolding session dbd_connect
  ingres_session-handles hs dbs c e =
      Ensures-bind (Connects hs) (λ a c'. IsGone hs c') (dbd_connect api option c) _
        (ingres_connect-Connects hs none (option (codes "ingres_autocommit")) c e)
        (λ r c' m.
          Ensures-bind (λ a c'. Has hs c') (λ a c'. IsGone hs c') (select_all dbs c') _
            (select_all-Has hs dbs c' (Connects-Has hs r c' m))
            (λ a c'' k. dbd_disconnect-IsGone hs c'' k))
