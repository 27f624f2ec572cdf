-- ===== src/Firebird/Statement/Handles.antt =====
-- The statement handles that `dbd_query` leaves allocated.
use libdbi_drivers.Prelude.{
  ℕ, Bool, true, false, Option, none, some, List, [], ◌∷◌, ◌≡◌, refl, ◌≢◌, Bytes,
}
use libdbi_drivers.Prelude.Faults.{Ensures, Ensures-bind}
use libdbi_drivers.Prelude.Opened.{without_self}
use libdbi_drivers.Firebird.Layout.{Column}
use libdbi_drivers.Firebird.Statement.{
  Isc, StatementType, stmt_ddl, stmt_other, connected, Conn, Statement, statement_of, give_up,
  get_trans, allocate, commit, start, committed, with_type, commit_ddl, executed, execute,
  described, prepared, allocated, dbd_query, dbd_free_query,
}

-- The server says of every statement of what type it is.
abbrev pub SaysTypes : Isc → Type 0
SaysTypes isc = (h : ℕ) (w : isc.World) → (isc.sql_info h w).0 ≢ none

module _ (isc : Isc) where
  -- There is a connection, and these statements are allocated.
  abbrev pub Has : List ℕ → Conn isc → Type 0
  Has hs c = ((trans : Bool) × (c.connection ≡ connected trans)) × (c.statements ≡ hs)

  -- What `dbd_query` returns, and the statements that are allocated: that of a result and those before.
  abbrev pub Returns : List ℕ → Option Statement → Conn isc → Type 0
  Returns hs none c = Has hs c
  Returns hs (some s) c = Has (s.stmt ∷ hs) c

  give_up-Returns :
      (h : ℕ) (hs : List ℕ) (c : Conn isc) → Has (h ∷ hs) c → Ensures (Returns hs) (give_up isc h c)
  give_up-Returns h hs c (k, e) = (k, rw e (without_self h hs))

  stmt-statement_of : (h : ℕ) (columns : List Column) → (statement_of h columns).stmt ≡ h
  stmt-statement_of h [] = refl
  stmt-statement_of h (c ∷ columns) = refl

  get_trans-Has :
      (hs : List ℕ) (c : Conn isc) → Has hs c → Ensures (λ trans c'. Has hs c') (get_trans isc c)
  get_trans-Has hs c ((trans, k), e) = rw k ((trans, refl), e)

  pub commit-Has :
      (hs : List ℕ) (c : Conn isc) → Has hs c → Ensures (λ ok c'. Has hs c') (commit isc c)
  unfolding commit
  commit-Has hs c k =
      Ensures-bind (λ trans c'. Has hs c') (λ ok c'. Has hs c') _ _ (get_trans-Has hs c k)
        (λ trans c' k. ((_, refl), k.1))

  start-Has : (hs : List ℕ) (c : Conn isc) → Has hs c → Ensures (λ a c'. Has hs c') (start isc c)
  unfolding start
  start-Has hs c k =
      Ensures-bind (λ trans c'. Has hs c') (λ a c'. Has hs c') _ _ (get_trans-Has hs c k)
        (λ trans c' k. ((_, refl), k.1))

  module _ (h : ℕ) (hs : List ℕ) where
    committed-Returns :
        (ok : Bool) (c : Conn isc) → Has (h ∷ hs) c → Ensures (Returns hs) (committed isc h ok c)
    unfolding committed
    committed-Returns false c k = give_up-Returns h hs c k
    committed-Returns true c k =
        Ensures-bind (λ a c'. Has (h ∷ hs) c') (Returns hs) _ _ (start-Has (h ∷ hs) c k)
          (λ a c' k. k)

    commit_ddl-Returns :
        (trans : Bool) (kind : Option StatementType) (c : Conn isc)
        → kind ≢ none
        → Has (h ∷ hs) c
        → Ensures (Returns hs) (commit_ddl isc h trans kind c)
    unfolding commit_ddl
    commit_ddl-Returns false kind c n k = k
    commit_ddl-Returns true none c n k = absurd (n refl)
    commit_ddl-Returns true (some stmt_other) c n k = k
    commit_ddl-Returns true (some stmt_ddl) c n k =
        Ensures-bind (λ ok c'. Has (h ∷ hs) c') (Returns hs) _ _ (commit-Has (h ∷ hs) c k)
          (λ ok c' k. committed-Returns ok c' k)

    executed-Returns :
        (columns : List Column) (kind : Option StatementType) (ok : Bool) (c : Conn isc)
        → kind ≢ none
        → Has (h ∷ hs) c
        → Ensures (Returns hs) (executed isc h columns kind ok c)
    unfolding executed
    executed-Returns columns kind false c n k = give_up-Returns h hs c k
    executed-Returns [] kind true c n k =
        Ensures-bind (λ trans c'. Has (h ∷ hs) c') (Returns hs) _ _ (get_trans-Has (h ∷ hs) c k)
          (λ trans c' k. commit_ddl-Returns trans kind c' n k)
    executed-Returns (d ∷ columns) kind true c n k = k

    execute-Returns :
        (columns : List Column) (kind : Option StatementType) (c : Conn isc)
        → kind ≢ none
        → Has (h ∷ hs) c
        → Ensures (Returns hs) (execute isc h columns kind c)
    unfolding execute
    execute-Returns columns kind c n k =
        Ensures-bind (λ trans c'. Has (h ∷ hs) c') (Returns hs) _ _ (get_trans-Has (h ∷ hs) c k)
          (λ trans c' k. executed-Returns columns kind _ _ n k)

    described-Returns :
        (kind : Option StatementType) (columns : Option (List Column)) (c : Conn isc)
        → kind ≢ none
        → Has (h ∷ hs) c
        → Ensures (Returns hs) (described isc h kind columns c)
    unfolding described
    described-Returns kind none c n k = give_up-Returns h hs c k
    described-Returns kind (some columns) c n k = execute-Returns columns kind c n k

    with_type-Returns :
        (columns : List Column) (kind : Option StatementType) (c : Conn isc)
        → kind ≢ none
        → Has (h ∷ hs) c
        → Ensures (Returns hs) (with_type isc h columns kind c)
    unfolding with_type
    with_type-Returns [] kind c n k = execute-Returns [] kind c n k
    with_type-Returns (d ∷ []) kind c n k = execute-Returns (d ∷ []) kind c n k
    with_type-Returns (d ∷ d' ∷ columns) kind c n k = described-Returns kind _ _ n k

    prepared-Returns :
        SaysTypes isc
        → (columns : Option (List Column)) (c : Conn isc) → Has (h ∷ hs) c
        → Ensures (Returns hs) (prepared isc h columns c)
    unfolding prepared
    prepared-Returns says none c k = give_up-Returns h hs c k
    prepared-Returns says (some columns) c k = with_type-Returns columns _ _ (says h c.world) k

  abbrev Allocates : List ℕ → Option ℕ → Conn isc → Type 0
  Allocates hs none c = Has hs c
  Allocates hs (some h) c = Has (h ∷ hs) c

  allocated-Returns :
      SaysTypes isc
      → (statement : Bytes) (hs : List ℕ) (o : Option ℕ) (c : Conn isc) → Allocates hs o c
      → Ensures (Returns hs) (allocated isc statement o c)
  unfolding allocated
  allocated-Returns says statement hs none c k = k
  allocated-Returns says statement hs (some h) c k =
      Ensures-bind (λ trans c'. Has (h ∷ hs) c') (Returns hs) _ _ (get_trans-Has (h ∷ hs) c k)
        (λ trans c' k. prepared-Returns h hs says _ _ k)

  -- The handle of an allocation that succeeds is allocated.
  allocate-Returns :
      (hs : List ℕ) (c : Conn isc) → Has hs c → Ensures (Allocates hs) (allocate isc c)
  allocate-Returns hs c k = by_handle (isc.allocate c.world).0 (isc.allocate c.world).1
    where
      by_handle :
          (o : Option ℕ) (w : isc.World)
          → Ensures (Allocates hs) (elim o as (λ x. Option (Option ℕ × Conn isc)) [
            | none ↦ some (none, record c { world = w })
            | some h ↦ some (some h, record c { world = w; statements = h ∷ c.statements })
          ])
      by_handle none w = k
      by_handle (some h) w = (k.0, rw k.1 refl)

  pub dbd_query-Returns :
      SaysTypes isc
      → (statement : Bytes) (hs : List ℕ) (c : Conn isc) → Has hs c
      → Ensures (Returns hs) (dbd_query isc statement c)
  unfolding dbd_query
  dbd_query-Returns says statement hs c k =
      Ensures-bind (λ trans c'. Has hs c') (Returns hs) _ _ (get_trans-Has hs c k)
        (λ trans c' k.
          Ensures-bind (Allocates hs) (Returns hs) _ _ (allocate-Returns hs c' k)
            (λ o c' k. allocated-Returns says statement hs o c' k))

  pub dbd_free_query-Has :
      (s : Statement) (hs : List ℕ) (c : Conn isc)
      → Has (s.stmt ∷ hs) c
      → Ensures (λ a c'. Has hs c') (dbd_free_query isc s c)
  unfolding dbd_free_query
  dbd_free_query-Has s hs c k =
      Ensures-bind (λ trans c'. Has (s.stmt ∷ hs) c') (λ a c'. Has hs c') _ _
        (get_trans-Has (s.stmt ∷ hs) c k) (λ trans c' k. (k.0, rw k.1 (without_self s.stmt hs)))
