-- ===== src/Mysql/Connection/Handles.antt =====
-- What becomes of the handle of a MySQL connection in each operation.
use libdbi_drivers.Prelude.{
  ℕ, Bool, true, false, Option, none, some, List, [], ◌∷◌, ◌≡◌, refl, ◌↔◌, ◌≢◌, inl, inr,
  Bool-cases, arith, Bytes, codes,
}
use mathlib.Core.Path.{subst}
use libdbi_drivers.Prelude.Faults.{Ensures, Ensures-bind}
use libdbi_drivers.Prelude.Int.{ℤ, pos}
use libdbi_drivers.Prelude.Opened.{handles, is_open_self, without_self}
use libdbi_drivers.Mysql.Charset.{encoding_statements}
use libdbi_drivers.Mysql.Client.{Mysql}
use libdbi_drivers.Mysql.Connection.{
  Conn, Action, on_handle, close, set_current_db, the_handle, stored_if, query_on, dbd_query,
  run_all, run_if, set_encoding, handle_error, dbd_geterror, connected, set_timeout, opened_as,
  dbd_connect, or_empty, login_of, selected, dbd_select_db, dbd_get_seq_last, dbd_ping, is_unset,
}

module _ (my : Mysql) where
  -- `h` is open and no other handle, and the option `encoding` is `enc`.
  abbrev pub Holds : ℕ → Option ℕ → Option Bytes → Conn my → Type 0
  Holds h co enc c = (c.opened ≡ h ∷ []) × (c.connection ≡ co) × (c.encoding ≡ enc)

  module _ (h : ℕ) (co : Option ℕ) (enc : Option Bytes) where
    abbrev pub KeepsHandle : {A : Type 0} → Option (A × Conn my) → Type 0
    KeepsHandle = Ensures (λ a c'. Holds h co enc c')

    pub on_handle-KeepsHandle :
        {A : Type 0} (f : my.World → A × my.World) (c : Conn my)
        → Holds h co enc c
        → KeepsHandle (on_handle my h f c)
    on_handle-KeepsHandle f c (e, k, n) = ground (arith, is_open_self h)

    pub close-opened :
        (c : Conn my)
        → Holds h co enc c
        → Ensures (λ a c'. (c'.opened ≡ []) × (c'.encoding ≡ enc)) (close my h c)
    close-opened c (e, k, n) = ground (arith, is_open_self h, without_self h [])

  module _ (h : ℕ) (enc : Option Bytes) where
    -- The connection has the handle `h`.
    abbrev pub Has : Conn my → Type 0
    Has c = Holds h (some h) enc c

    abbrev pub Keeps : {A : Type 0} → Option (A × Conn my) → Type 0
    Keeps = Ensures (λ a c'. Has c')

    the_handle-Keeps :
        {A : Type 0} (f : ℕ → Action my A) (o : Option ℕ) (c : Conn my)
        → o ≡ some h
        → Keeps (f h c)
        → Keeps (the_handle my f o c)
    the_handle-Keeps f o c e k = rw e k

    call-Keeps :
        {A : Type 0} (f : ℕ → my.World → A × my.World) (c : Conn my)
        → Has c
        → Keeps (the_handle my (λ h. on_handle my h (f h)) c.connection c)
    call-Keeps f c k =
        the_handle-Keeps (λ h. on_handle my h (f h)) c.connection c k.1
          (on_handle-KeepsHandle h (some h) enc (f h) c k)

    handle_error-Keeps : (c : Conn my) → Has c → Keeps (handle_error my c)
    unfolding handle_error dbd_geterror
    handle_error-Keeps c k =
        Ensures-bind (λ a c'. Has c') (λ a c'. Has c') (dbd_geterror my c) _ (call-Keeps _ c k)
          (λ a c' k. k)

    stored_if-Keeps : (ok : Bool) (c : Conn my) → Has c → Keeps (stored_if my h ok c)
    stored_if-Keeps false c k = k
    stored_if-Keeps true c k =
        Ensures-bind (λ a c'. Has c') (λ a c'. Has c') (on_handle my h (my.store_result h) c) _
          (on_handle-KeepsHandle h (some h) enc (my.store_result h) c k)
          (λ stored c' k.
            Ensures-bind (λ a c'. Has c') (λ a c'. Has c')
              (on_handle my h (λ w. (my.affected_rows h w, w)) c') _
              (on_handle-KeepsHandle h (some h) enc (λ w. (my.affected_rows h w, w)) c' k)
              (λ a c' k. k))

    pub dbd_query-Keeps :
        (statement : Bytes) (c : Conn my) → Has c → Keeps (dbd_query my statement c)
    unfolding dbd_query query_on
    dbd_query-Keeps statement c k = the_handle-Keeps (query_on my statement) c.connection c k.1 (
        Ensures-bind (λ a c'. Has c') (λ a c'. Has c') (on_handle my h (my.query h statement) c) _
          (on_handle-KeepsHandle h (some h) enc (my.query h statement) c k)
          (λ ok c' k. stored_if-Keeps ok c' k))

    run_all-Keeps :
        (statements : List Bytes) (c : Conn my) → Has c → Keeps (run_all my statements c)
    unfolding run_all
    run_all-Keeps [] c k = k
    run_all-Keeps (statement ∷ statements) c k =
        Ensures-bind (λ a c'. Has c') (λ a c'. Has c') (dbd_query my statement c) _
          (dbd_query-Keeps statement c k) (λ a c' k. run_all-Keeps statements c' k)

    run_if-Keeps :
        (o : Option (List Bytes)) (c : Conn my) → o ≢ none → Has c → Keeps (run_if my o c)
    run_if-Keeps none c n k = absurd (n refl)
    run_if-Keeps (some statements) c n k = run_all-Keeps statements c k

    set_current_db-Keeps : (o : Option Bytes) (c : Conn my) → Has c → Keeps (set_current_db my o c)
    set_current_db-Keeps none c k = k
    set_current_db-Keeps (some db) c k = k

    selected-Keeps : (db : Bytes) (ok : Bool) (c : Conn my) → Has c → Keeps (selected my db ok c)
    unfolding selected
    selected-Keeps db true c k = k
    selected-Keeps db false c k =
        Ensures-bind (λ a c'. Has c') (λ a c'. Has c') (handle_error my c) _
          (handle_error-Keeps c k) (λ a c' k. k)

    pub dbd_select_db-Keeps : (db : Bytes) (c : Conn my) → Has c → Keeps (dbd_select_db my db c)
    unfolding dbd_select_db
    dbd_select_db-Keeps db c k = the_handle-Keeps _ c.connection c k.1 (
        Ensures-bind (λ a c'. Has c') (λ a c'. Has c') (on_handle my h (my.select_db h db) c) _
          (on_handle-KeepsHandle h (some h) enc (my.select_db h db) c k)
          (λ ok c' k. selected-Keeps db ok c' k))

    pub dbd_get_seq_last-Keeps : (c : Conn my) → Has c → Keeps (dbd_get_seq_last my c)
    unfolding dbd_get_seq_last
    dbd_get_seq_last-Keeps c k = call-Keeps _ c k

    pub dbd_ping-Keeps : (c : Conn my) → Has c → Keeps (dbd_ping my c)
    unfolding dbd_ping
    dbd_ping-Keeps c k = call-Keeps my.ping c k

  -- Setting the encoding reads no memory that is freed.
  abbrev pub NamesEncodings : Option Bytes → Type 0
  NamesEncodings enc = (w : my.World) (db : Bytes) → encoding_statements (my.ask w) enc db ≢ none

  set_encoding-Keeps :
      (h : ℕ) (enc : Option Bytes) (c : Conn my)
      → NamesEncodings enc
      → Has h enc c
      → Keeps h enc (set_encoding my c)
  set_encoding-Keeps h enc c names k =
      run_if-Keeps h enc _ c
        (λ e. names c.world (or_empty my c.current_db) (
          subst (λ o. encoding_statements (my.ask c.world) o (or_empty my c.current_db) ≡ none) k.2
            e))
        k

  -- A connection that was made is held, and one that failed is given back.
  abbrev pub Connects : Option Bytes → ℤ → Conn my → Type 0
  Connects enc r c =
      (c.opened ≡ handles c.connection) × (c.encoding ≡ enc) × ((r ≡ pos 0) ↔ (c.connection ≢ none))

  connected-Connects :
      (h : ℕ) (enc : Option Bytes) (ok : Bool) (c : Conn my)
      → NamesEncodings enc
      → Holds h none enc c
      → Ensures (Connects enc) (connected my h ok c)
  unfolding connected
  connected-Connects h enc false c names (e, k, n) =
      Ensures-bind (λ a c'. Has h enc c') (Connects enc)
        (handle_error my (record c { connection = some h })) _
        (handle_error-Keeps h enc (record c { connection = some h }) (e, refl, n))
        (λ a c' k.
          Ensures-bind (λ a c''. (c''.opened ≡ []) × (c''.encoding ≡ enc)) (Connects enc)
            (close my h c') _ (close-opened h (some h) enc c' k)
            (λ a c' k. (k.0, k.1, ground arith)))
  connected-Connects h enc true c names (e, k, n) =
      Ensures-bind (λ a c'. Has h enc c') (Connects enc)
        (set_current_db my c.dbname (record c { connection = some h })) _
        (set_current_db-Keeps h enc c.dbname (record c { connection = some h }) (e, refl, n))
        (λ a c' k.
          Ensures-bind (λ a c'. Has h enc c') (Connects enc) (set_encoding my c') _
            (set_encoding-Keeps h enc c' names k) (λ a c' (e, k, n). (rw k e, n, ground arith)))

  set_timeout-Keeps :
      (h : ℕ) (enc : Option Bytes) (timeout : ℤ) (c : Conn my)
      → Holds h none enc c
      → Ensures (λ a c'. Holds h none enc c') (set_timeout my h timeout c)
  set_timeout-Keeps h enc timeout c k = elim (Bool-cases (is_unset timeout)) [
    | inl e ↦ rw e k
    | inr e ↦ rw e (on_handle-KeepsHandle h none enc (λ w. (tt, my.set_timeout h timeout w)) c k)
  ]

  opened_as-Connects :
      (enc : Option Bytes) (o : Option ℕ) (c : Conn my)
      → NamesEncodings enc
      → c.opened ≡ handles o
      → c.connection ≡ none
      → c.encoding ≡ enc
      → Ensures (Connects enc) (opened_as my o c)
  unfolding opened_as
  opened_as-Connects enc none c names e n k = (rw n e, k, ground arith)
  opened_as-Connects enc (some h) c names e n k =
      Ensures-bind (λ a c'. Holds h none enc c') (Connects enc)
        (set_timeout my h (c.numeric (codes "timeout")) c) _
        (set_timeout-Keeps h enc (c.numeric (codes "timeout")) c (e, n, k))
        (λ a c' k.
          Ensures-bind (λ a c'. Holds h none enc c') (Connects enc)
            (on_handle my h (my.real_connect h (login_of my c')) c') _
            (on_handle-KeepsHandle h none enc (my.real_connect h (login_of my c')) c' k)
            (λ ok c' k. connected-Connects h enc ok c' names k))

  -- There is no connection, and no handle is open.
  abbrev pub IsClosed : Conn my → Type 0
  IsClosed c = (c.opened ≡ []) × (c.connection ≡ none)

  -- `dbd_connect`, called with nothing open and no connection, where setting the encoding reads no memory that
  -- is freed, calls the library on no handle that is not open, and returns 0 if and only if the
  -- connection is then set; its handle is open and no other. On an error nothing is left open.
  pub dbd_connect-Connects :
      (c : Conn my)
      → NamesEncodings c.encoding
      → IsClosed c
      → Ensures (Connects c.encoding) (dbd_connect my c)
  unfolding dbd_connect
  dbd_connect-Connects c names (e, n) = by_handle (my.init c.world).0 (my.init c.world).1
    where
      by_handle :
          (o : Option ℕ) (w : my.World)
          → Ensures
              (Connects c.encoding)
              (elim (elim o as (λ x. Option (Option ℕ × Conn my)) [
                | none ↦ some (none, record c { world = w })
                | some h ↦ some (some h, record c { world = w; opened = h ∷ c.opened })
              ])
                as (λ x. Option (ℤ × Conn my)) [ none ↦ none | some x ↦ opened_as my x.0 x.1 ])
      by_handle none w = opened_as-Connects c.encoding none (record c { world = w }) names e n refl
      by_handle (some h) w =
          opened_as-Connects c.encoding (some h) (record c { world = w; opened = h ∷ c.opened })
            names (rw e refl) n refl
