-- ===== src/Ingres/Connection.antt =====
-- Connections of drivers/ingres/dbd_ingres.c: `ingres_connect` with the options that it sets, `dbd_disconnect` and
-- `dbd_select_db`. The Ingres API is a parameter. The handles of connections that it has given out and
-- that are not disconnected are kept in the state. There is no connection to the system catalogues.
pub mod Closed
use libdbi_drivers.Prelude.{
  ℕ, zero, suc, Bool, true, false, not, ◌==◌, Option, none, some, List, [], ◌∷◌, if◌then◌else◌,
  Bytes, codes,
}
use libdbi_drivers.Prelude.Faults.{M, ◌>>=◌, ◌>>◌, pure, fault}
use libdbi_drivers.Prelude.Int.{ℤ, pos, negsuc}
use libdbi_drivers.Prelude.Opened.{without}
use libdbi_drivers.Ingres.Query.{Status, below_error}

-- The parameters of a connection, IIAPI_CP_.
pub data Param : Type 0 where
  century_boundary date_format decimal_char exclusive_lock money_sign money_precision : Param
  money_lort native_lang native_lang_code numeric_treatment string_trunc timezone : Param

-- The value of a parameter: a number, or a text.
pub data Value : Type 0 where
  number : ℤ → Value
  text : Bytes → Value

-- The calls of `ingres_option_num` (true) and `ingres_option_str` in their order.
abbrev pub settings : List (Bool × Param × Bytes)
settings =
    (true, century_boundary, codes "ingres_century_bdry")
    ∷ (true, date_format, codes "ingres_date_format")
    ∷ (false, decimal_char, codes "ingres_decimal_char")
    ∷ (true, exclusive_lock, codes "ingres_excl_lock")
    ∷ (false, money_sign, codes "ingres_money_sign")
    ∷ (true, money_precision, codes "ingres_money_prec")
    ∷ (true, money_lort, codes "ingres_money_lort")
    ∷ (false, native_lang, codes "ingres_native_lang")
    ∷ (true, native_lang_code, codes "ingres_native_lang_code")
    ∷ (false, numeric_treatment, codes "ingres_num_treatment")
    ∷ (false, string_trunc, codes "ingres_string_trunc")
    ∷ (false, timezone, codes "ingres_timezone")
    ∷ []

-- What `IIapi_connect` is given besides the handle.
pub record Target : Type 0 where
  pub target : Option Bytes
  pub username : Option Bytes
  pub password : Option Bytes

-- The Ingres API, on a world of its own. A call with a connection's handle keeps it; `set_param` and
-- `connect`, where they get none, may give one. `autocommit` gets a transaction and gives one.
pub record Api : Type 1 where
  pub World : Type 0
  pub set_segment_len : ℤ → World → World
  pub set_param : Option ℕ → Param → Value → World → Option ℕ × World
  pub connect : Option ℕ → Target → World → (Status × Option ℕ) × World
  pub set_autocommit : Option ℕ → Option ℕ → World → (Status × Option ℕ) × World
  pub disconnect : ℕ → World → World
  pub atoi : Bytes → ℤ

-- An `ingres_conn_t`.
pub record Iconn : Type 0 where
  pub conn_handle : Option ℕ
  pub curr_tran : Option ℕ
  pub autocommit : Bool

pub record Conn (api : Api) : Type 0 where
  pub connection : Option Iconn
  pub world : api.World
  pub handles : List ℕ

abbrev pub kept : Option ℕ → Option ℕ → Option ℕ
kept none new = new
kept (some h) new = some h

abbrev pub add : Option ℕ → List ℕ → List ℕ
add none handles = handles
add (some h) handles = h ∷ handles

abbrev pub add_new : Option ℕ → Option ℕ → List ℕ → List ℕ
add_new none new handles = add new handles
add_new (some h) new handles = handles

abbrev pub chosen_target : Option Bytes → Option Bytes → Option Bytes
chosen_target none dbname = dbname
chosen_target (some db) dbname = some db

abbrev is_zero : ℤ → Bool
is_zero (pos zero) = true
is_zero z = false

-- `option` is `dbi_conn_get_option`.
module _ (api : Api) (option : Bytes → Option Bytes) where
  abbrev pub Action : Type 0 → Type 0
  Action A = M (Conn api) A

  abbrev pub set_connection : Option Iconn → Action (Unit {0})
  set_connection x c = some (tt, record c { connection = x })

  abbrev pub set_segment : Option Bytes → Action (Unit {0})
  set_segment none c = some (tt, c)
  set_segment (some opt) c =
      some (tt, record c { world = api.set_segment_len (api.atoi opt) c.world })

  abbrev value_of : Bool → Bytes → Value
  value_of true opt = number (api.atoi opt)
  value_of false opt = text opt

  -- `ingres_option_num` and `ingres_option_str`, with `sc_connHandle`. The handle of the environment, with
  -- which it begins, is no connection's: `none` stands for it.
  abbrev pub set_to : Option Bytes → Bool → Param → Option ℕ → Action (Option ℕ)
  set_to none is_number id handle c = some (handle, c)
  set_to (some opt) is_number id handle c =
      let (new, w) = api.set_param handle id (value_of is_number opt) c.world in
      some (kept handle new, record c { world = w; handles = add_new handle new c.handles })

  unfoldable pub set_all : List (Bool × Param × Bytes) → Option ℕ → Action (Option ℕ)
  set_all [] handle = pure handle
  set_all ((is_number, id, name) ∷ rest) handle = do
    handle' ← set_to (option name) is_number id handle
    set_all rest handle'

  abbrev target_of : Option Bytes → Target
  target_of db = record {
    target = chosen_target db (option (codes "dbname"));
    username = option (codes "username");
    password = option (codes "password");
  }

  abbrev iconn_of : Option ℕ → Option ℕ → Bool → Iconn
  iconn_of handle tran auto = record { conn_handle = handle; curr_tran = tran; autocommit = auto }

  -- `IIapi_connect`; the handle that it gives is that of the connection.
  abbrev pub connect_by : Option ℕ → Option Bytes → Action (Status × Option ℕ)
  connect_by handle db c =
      let ((status, new), w) = api.connect handle (target_of db) c.world in
      some (
        (status, kept handle new),
        record c {
          connection = some (iconn_of (kept handle new) none false);
          world = w;
          handles = add_new handle new c.handles;
        },
      )

  abbrev pub autocommit_by : Option ℕ → Option ℕ → Action (Status × Option ℕ)
  autocommit_by handle tran c =
      let (answer, w) = api.set_autocommit handle tran c.world in
      some (answer, record c { world = w })

  -- The result is not looked at.
  abbrev pub leave_autocommit : Iconn → Bool → Action (Unit {0})
  leave_autocommit ic false = pure tt
  leave_autocommit ic true = do autocommit_by ic.conn_handle ic.curr_tran; pure tt

  abbrev pub disconnect_handle : Option ℕ → Action (Unit {0})
  disconnect_handle none c = some (tt, c)
  disconnect_handle (some h) c =
      some (tt, record c { world = api.disconnect h c.world; handles = without c.handles h })

  unfoldable pub disconnect_from : Option Iconn → Action (Unit {0})
  disconnect_from none = pure tt
  disconnect_from (some ic) = do
    leave_autocommit ic ic.autocommit
    disconnect_handle ic.conn_handle
    set_connection none

  unfoldable pub dbd_disconnect : Action (Unit {0})
  unfolding disconnect_from
  dbd_disconnect c = disconnect_from c.connection c

  -- It is enabled by default.
  abbrev pub is_auto : Option Bytes → Bool
  is_auto none = true
  is_auto (some autocommit) = not (is_zero (api.atoi autocommit))

  abbrev tran_of : Bool → Option ℕ → Option ℕ
  tran_of true tran = tran
  tran_of false tran = none

  unfoldable pub enable : Option ℕ → Bool → Action ℤ
  enable handle false = pure (pos 0)
  enable handle true = do
    (status, tran) ← autocommit_by handle none
    set_connection (some (iconn_of handle (tran_of (below_error status) tran) true))
    pure (pos 0)

  unfoldable pub connected : Option ℕ → Option Bytes → Bool → Action ℤ
  unfolding enable dbd_disconnect
  connected handle autocommit false = do dbd_disconnect; pure (negsuc 0)
  connected handle autocommit true = enable handle (is_auto autocommit)

  unfoldable pub ingres_connect : Option Bytes → Option Bytes → Action ℤ
  unfolding set_all connected
  ingres_connect db autocommit = do
    set_connection (some (iconn_of none none false))
    set_segment (option (codes "ingres_blobsegment"))
    handle ← set_all settings none
    (status, conn_handle) ← connect_by handle db
    connected conn_handle autocommit (below_error status)

  unfoldable pub dbd_connect : Action ℤ
  unfolding ingres_connect
  dbd_connect = ingres_connect none (option (codes "ingres_autocommit"))

  -- `db` is empty for a null pointer.
  unfoldable pub dbd_select_db : Bytes → Action (Option Bytes)
  unfolding ingres_connect dbd_disconnect
  dbd_select_db [] = pure none
  dbd_select_db (d ∷ db) = do
    dbd_disconnect
    r ← ingres_connect (some (d ∷ db)) (option (codes "ingres_autocommit"))
    pure (if is_zero r then some (d ∷ db) else none)
