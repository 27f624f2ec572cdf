-- ===== src/Oracle/Session.antt =====
-- Connections and statements of drivers/oracle/dbd_oracle.c: `dbd_connect`, `dbd_disconnect`, `dbd_query_null` and
-- `dbd_query`, `dbd_free_query`, `_oracle_query_to_longlong`, `dbd_get_seq_last`, `dbd_get_seq_next` and
-- `dbd_ping`. OCI is a parameter. The handles of each kind that are allocated are counted. A use
-- of a null pointer is a fault, and so is one of a statement whose handle was not allocated, since the
-- status of that allocation is not looked at.
pub mod Counts
pub mod Ping
pub mod Environments
use libdbi_drivers.Prelude.{
  ℕ, zero, suc, ◌+◌, ◌-◌, ◌/◌, ◌==◌, Bool, true, false, Option, none, some, List, [], ◌∷◌, ◌++◌,
  if◌then◌else◌, Bytes, codes,
}
use libdbi_drivers.Prelude.Faults.{M, ◌>>=◌, ◌>>◌, pure, fault}
use libdbi_drivers.Prelude.Int.{ℤ, pos, negsuc}
use libdbi_drivers.Dbi.{Field}
use libdbi_drivers.Oracle.Rows.{Described, _get_field_info}

-- OCI, on a world of its own. A `Bool` is true where the function returns OCI_SUCCESS. `is_select` is the
-- statement's type, `position` the position after the last row was fetched, `columns` the description of
-- the output, and `value` what is fetched into `val`, which is 0 before.
pub record Oci : Type 1 where
  pub World : Type 0
  pub env_create : World → Bool × World
  pub alloc_err : World → Bool × World
  pub alloc_svc : World → Bool × World
  pub logon : Bytes → Bytes → Bytes → World → Bool × World
  pub logoff : World → World
  pub alloc_stmt : World → Bool × World
  pub prepare : Bytes → World → Bool × World
  pub is_select : World → Bool × World
  pub execute : World → Bool × World
  pub columns : World → List Described × World
  pub position : World → ℕ × World
  pub prefetch : ℕ → World → World
  pub value : Bytes → World → ℤ × World
  -- `(unsigned long long)` of an `sword`
  pub unsigned : ℤ → ℕ

-- The handles that are allocated.
pub record Handles : Type 0 where
  pub envs : ℕ
  pub errs : ℕ
  pub svcs : ℕ
  pub stmts : ℕ

-- `username`, `password` and `sid` are the options, with the environment's ORACLE_SID for the last, and
-- `prefetch_rows` the option oracle_prefetch_rows by its number. `is_connected` says that
-- `conn->connection` is not null.
pub record Conn (oci : Oci) : Type 0 where
  pub username : Option Bytes
  pub password : Option Bytes
  pub sid : Option Bytes
  pub prefetch_rows : ℤ
  pub is_connected : Bool
  pub handles : Handles
  pub world : oci.World

pub record QueryResult : Type 0 where
  pub numrows : ℕ
  pub fields : List Field

module _ (oci : Oci) where
  abbrev pub Action : Type 0 → Type 0
  Action A = M (Conn oci) A

  abbrev pub call : {A : Type 0} → (oci.World → A × oci.World) → Action A
  call f c = let (a, w) = f c.world in some (a, record c { world = w })

  abbrev pub change : (Handles → Handles) → Action (Unit {0})
  change f c = some (tt, record c { handles = f c.handles })

  abbrev pub set_connected : Bool → Action (Unit {0})
  set_connected b c = some (tt, record c { is_connected = b })

  abbrev add_env : Handles → Handles
  add_env h = record h { envs = h.envs + 1 }

  abbrev add_err : Handles → Handles
  add_err h = record h { errs = h.errs + 1 }

  abbrev add_svc : Handles → Handles
  add_svc h = record h { svcs = h.svcs + 1 }

  abbrev pub add_stmt : Handles → Handles
  add_stmt h = record h { stmts = h.stmts + 1 }

  abbrev pub drop_stmt : Handles → Handles
  drop_stmt h = record h { stmts = h.stmts - 1 }

  abbrev drop_err_svc : Handles → Handles
  drop_err_svc h = record h { errs = h.errs - 1; svcs = h.svcs - 1 }

  unfoldable pub logged_on : Bool → Action ℤ
  logged_on false = pure (negsuc 1)
  logged_on true = do set_connected true; pure (pos 0)

  -- The lengths of the three texts are taken.
  unfoldable pub log_on : Option Bytes → Option Bytes → Option Bytes → Action ℤ
  unfolding logged_on
  log_on (some username) (some password) (some sid) = do
    ok ← call (oci.logon username password sid)
    logged_on ok
  log_on username password sid = fault

  unfoldable pub with_svc : Bool → Action ℤ
  unfolding log_on
  with_svc false = pure (negsuc 1)
  with_svc true = do change add_svc; λ c. log_on c.username c.password c.sid c

  unfoldable pub with_err : Bool → Action ℤ
  unfolding with_svc
  with_err false = pure (negsuc 1)
  with_err true = do change add_err; ok ← call oci.alloc_svc; with_svc ok

  unfoldable pub with_env : Bool → Action ℤ
  unfolding with_err
  with_env false = pure (negsuc 1)
  with_env true = do change add_env; ok ← call oci.alloc_err; with_err ok

  unfoldable pub dbd_connect : Action ℤ
  unfolding with_env
  dbd_connect = do ok ← call oci.env_create; with_env ok

  unfoldable pub disconnect_if : Bool → Action (Unit {0})
  disconnect_if false = set_connected false
  disconnect_if true = do call (λ w. (tt, oci.logoff w)); change drop_err_svc; set_connected false

  unfoldable pub dbd_disconnect : Action (Unit {0})
  unfolding disconnect_if
  dbd_disconnect c = disconnect_if c.is_connected c

  -- `Oconn->env`
  abbrev pub connected : Action (Unit {0})
  connected c = elim c.is_connected [ true ↦ some (tt, c) | false ↦ none ]

  abbrev free_stmt : Action (Option QueryResult)
  free_stmt = do change drop_stmt; pure none

  -- A fifth of the rows is fetched ahead, if the option is not 0.
  abbrev pub prefetch : ℤ → ℕ → Action (Unit {0})
  prefetch (pos zero) numrows = pure tt
  prefetch z numrows = call (λ w. (tt, oci.prefetch (numrows / 5) w))

  unfoldable pub with_rows : List Described → ℕ → Action (Option QueryResult)
  with_rows columns numrows = do
    (λ c. prefetch c.prefetch_rows numrows c)
    pure (some (record { numrows = numrows; fields = _get_field_info columns }))

  unfoldable pub selected : Bool → Action (Option QueryResult)
  unfolding with_rows
  selected false = pure (some (record { numrows = 0; fields = [] }))
  selected true = do
    columns ← call oci.columns
    numrows ← call oci.position
    with_rows columns numrows

  unfoldable pub executed : Bool → Bool → Action (Option QueryResult)
  unfolding selected
  executed select false = free_stmt
  executed select true = selected select

  unfoldable pub prepared : Bool → Action (Option QueryResult)
  unfolding executed
  prepared false = free_stmt
  prepared true = do select ← call oci.is_select; ok ← call oci.execute; executed select ok

  -- `OCIHandleAlloc` of `stmt`, which is null where it fails and is used next.
  abbrev pub with_stmt : Bool → Action (Unit {0})
  with_stmt false = fault
  with_stmt true = change add_stmt

  -- `dbd_query` is `dbd_query_null` with the length of the statement.
  unfoldable pub dbd_query : Bytes → Action (Option QueryResult)
  unfolding prepared
  dbd_query statement = do
    connected
    there ← call oci.alloc_stmt
    with_stmt there
    ok ← call (oci.prepare statement)
    prepared ok

  unfoldable pub dbd_free_query : Action (Unit {0})
  dbd_free_query = change drop_stmt

  -- None of the returned statuses is looked at.
  unfoldable pub _oracle_query_to_longlong : Bytes → Action ℕ
  _oracle_query_to_longlong query = do
    connected
    there ← call oci.alloc_stmt
    with_stmt there
    val ← call (oci.value query)
    change drop_stmt
    pure (oci.unsigned val)

  unfoldable pub dbd_get_seq_last : Option Bytes → Action ℕ
  unfolding _oracle_query_to_longlong
  dbd_get_seq_last none = pure 0
  dbd_get_seq_last (some sequence) =
      _oracle_query_to_longlong (codes "SELECT " ++ (sequence ++ codes ".currval FROM dual"))

  unfoldable pub dbd_get_seq_next : Option Bytes → Action ℕ
  unfolding _oracle_query_to_longlong
  dbd_get_seq_next none = pure 0
  dbd_get_seq_next (some sequence) =
      _oracle_query_to_longlong (codes "SELECT " ++ (sequence ++ codes ".nextval FROM dual"))

  -- `(retval ? 0 : retval)`, for what `dbd_connect` returned.
  abbrev ping_value : ℤ → ℕ
  ping_value (pos zero) = 0
  ping_value z = 0

  unfoldable pub pinged : ℕ → Action ℕ
  unfolding dbd_disconnect dbd_connect
  pinged zero = do dbd_disconnect; r ← dbd_connect; pure (ping_value r)
  pinged (suc n) = pure (suc n)

  unfoldable pub dbd_ping : Action ℕ
  unfolding _oracle_query_to_longlong pinged
  dbd_ping = do retval ← _oracle_query_to_longlong (codes "SELECT 1 from dual"); pinged retval
