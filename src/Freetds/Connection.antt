-- ===== src/Freetds/Connection.antt =====
-- A connection of drivers/freetds/dbd_freetds.c: `dbd_connect` and `dbd_disconnect`. The CT library and `strtol`
-- are parameters. What is allocated for the connection, the FREETDSCON and what the library has, is kept
-- in the state: to give back what is not allocated is a fault. There is memory for a FREETDSCON.
pub mod Released
use libdbi_drivers.Prelude.{
  ℕ, Bool, true, false, Option, none, some, List, [], ◌∷◌, ◌==◌, if◌then◌else◌, Bytes,
}
use libdbi_drivers.Prelude.Faults.{M, ◌>>=◌, ◌>>◌, pure, fault}
use libdbi_drivers.Prelude.Int.{ℤ, pos, negsuc}

pub data TdsVersion : Type 0 where
  tds_40 tds_46 tds_495 tds_50 tds_70 tds_80 : TdsVersion

-- `switch (str[2])`
abbrev pub minor_version : ℕ → TdsVersion
minor_version c = if c == b'6' then tds_46 else if c == b'9' then tds_495 else tds_40

-- The option freetds_version; `none` is a read behind the end of the text.
unfoldable pub version_of : Bytes → Option TdsVersion
version_of [] = some tds_40
version_of (c ∷ []) =
    if c == b'8'
    then some tds_80
    else if c == b'7'
    then some tds_70
    else if c == b'5'
    then some tds_50
    else if c == b'4'
    then none
    else some tds_40
version_of (c ∷ d ∷ []) =
    if c == b'8'
    then some tds_80
    else if c == b'7'
    then some tds_70
    else if c == b'5'
    then some tds_50
    else some tds_40
version_of (c ∷ d ∷ e ∷ s) =
    if c == b'8'
    then some tds_80
    else if c == b'7'
    then some tds_70
    else if c == b'5'
    then some tds_50
    else if c == b'4'
    then some (minor_version e)
    else some tds_40

-- The CT library, on a world of its own; a `Bool` is true for CS_SUCCEED.
pub record CtLib : Type 1 where
  pub World : Type 0
  pub ctx_alloc : World → Bool × World
  pub init : World → Bool × World
  pub con_alloc : World → Bool × World
  pub cmd_alloc : World → Bool × World
  pub set_username : Bytes → World → Bool × World
  pub set_password : Bytes → World → Bool × World
  pub set_version : TdsVersion → World → Bool × World
  pub set_port : ℤ → World → Bool × World
  pub connect : Bytes → World → Bool × World
  pub cancel : World → Bool × World
  pub close : World → World
  pub strtol : Bytes → ℤ

-- What is allocated: `tdscon`, `ctx`, the library that is initialised, `conn` and `cmd`.
pub record Held : Type 0 where
  pub has_block : Bool
  pub has_ctx : Bool
  pub has_lib : Bool
  pub has_con : Bool
  pub has_cmd : Bool

-- `conn->connection`: null, a FREETDSCON, or the address of one that was freed.
pub data Connection : Type 0 where
  absent present freed : Connection

pub record Conn (ct : CtLib) : Type 0 where
  pub connection : Connection
  pub held : Held
  pub world : ct.World

-- The options of the connection.
pub record Options : Type 0 where
  pub username : Option Bytes
  pub password : Option Bytes
  pub freetds_version : Option Bytes
  pub port : Option Bytes
  pub host : Option Bytes

abbrev pub or_empty : Option Bytes → Bytes
or_empty none = []
or_empty (some s) = s

module _ (ct : CtLib) where
  abbrev pub Action : Type 0 → Type 0
  Action A = M (Conn ct) A

  abbrev pub call : {A : Type 0} → (ct.World → A × ct.World) → Action A
  call f c = let (a, w) = f c.world in some (a, record c { world = w })

  abbrev pub set_connection : Connection → Action (Unit {0})
  set_connection x c = some (tt, record c { connection = x })

  abbrev pub hold : (Held → Held) → Action (Unit {0})
  hold f c = some (tt, record c { held = f c.held })

  -- What is given back was allocated.
  abbrev pub release : (Held → Bool) → (Held → Held) → Action (Unit {0})
  release has f c = elim (has c.held) [
    | true ↦ some (tt, record c { held = f c.held })
    | false ↦ none
  ]

  abbrev pub cmd_drop : Action (Unit {0})
  cmd_drop = release (λ h. h.has_cmd) (λ h. record h { has_cmd = false })

  abbrev pub con_drop : Action (Unit {0})
  con_drop = release (λ h. h.has_con) (λ h. record h { has_con = false })

  abbrev pub exit : Action (Unit {0})
  exit = release (λ h. h.has_lib) (λ h. record h { has_lib = false })

  abbrev pub ctx_drop : Action (Unit {0})
  ctx_drop = release (λ h. h.has_ctx) (λ h. record h { has_ctx = false })

  -- `free(tdscon)`
  abbrev pub free_block : Action (Unit {0})
  free_block = release (λ h. h.has_block) (λ h. record h { has_block = false })

  abbrev pub otherwise : Action ℤ → Bool → Action ℤ
  otherwise rest true = rest
  otherwise rest false = pure (negsuc 0)

  -- A call whose failure is returned.
  abbrev pub checked : (ct.World → Bool × ct.World) → Action ℤ → Action ℤ
  checked f rest = do ok ← call f; otherwise rest ok

  abbrev pub with_version : Option Bytes → Action ℤ → Action ℤ
  with_version none rest = rest
  with_version (some str) rest = elim (version_of str) [
    | none ↦ fault
    | some num ↦ checked (ct.set_version num) rest
  ]

  abbrev pub with_port : Option Bytes → Action ℤ → Action ℤ
  with_port none rest = rest
  with_port (some str) rest = checked (ct.set_port (ct.strtol str)) rest

  abbrev pub connect : Options → Action ℤ
  connect o = checked (ct.connect (or_empty o.host)) (pure (pos 0))

  -- Behind `success_allocate`: what is allocated stays, whatever fails.
  unfoldable pub login : Options → Action ℤ
  unfolding version_of
  login o = checked (ct.set_username (or_empty o.username)) (
      checked (ct.set_password (or_empty o.password))
        (with_version o.freetds_version (with_port o.port (connect o))))

  unfoldable pub with_cmd : Options → Bool → Action ℤ
  unfolding login
  with_cmd o false = do con_drop; exit; ctx_drop; free_block; pure (negsuc 0)
  with_cmd o true = do hold (λ h. record h { has_cmd = true }); set_connection present; login o

  unfoldable pub with_con : Options → Bool → Action ℤ
  unfolding with_cmd
  with_con o false = do exit; ctx_drop; free_block; pure (negsuc 0)
  with_con o true = do
    hold (λ h. record h { has_con = true })
    ok ← call ct.cmd_alloc
    with_cmd o ok

  unfoldable pub with_lib : Options → Bool → Action ℤ
  unfolding with_con
  with_lib o false = do ctx_drop; free_block; pure (negsuc 0)
  with_lib o true = do
    hold (λ h. record h { has_lib = true })
    ok ← call ct.con_alloc
    with_con o ok

  unfoldable pub with_ctx : Options → Bool → Action ℤ
  unfolding with_lib
  with_ctx o false = do free_block; pure (negsuc 0)
  with_ctx o true = do hold (λ h. record h { has_ctx = true }); ok ← call ct.init; with_lib o ok

  unfoldable pub dbd_connect : Options → Action ℤ
  unfolding with_ctx
  dbd_connect o = do
    hold (λ h. record h { has_block = true })
    ok ← call ct.ctx_alloc
    with_ctx o ok

  unfoldable pub cancelled : Bool → Action ℕ
  cancelled false = pure 1
  cancelled true = do
    cmd_drop
    call (λ w. (tt, ct.close w))
    con_drop
    exit
    ctx_drop
    free_block
    set_connection freed
    pure 0

  abbrev pub disconnect_from : Connection → Action ℕ
  disconnect_from present = do ok ← call ct.cancel; cancelled ok
  disconnect_from connection = fault

  unfoldable pub dbd_disconnect : Action ℕ
  unfolding cancelled
  dbd_disconnect c = disconnect_from c.connection c
