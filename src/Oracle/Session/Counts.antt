-- ===== src/Oracle/Session/Counts.antt =====
-- The handles that a session leaves allocated.
use libdbi_drivers.Prelude.{
  ℕ, zero, suc, ◌+◌, ◌-◌, Bool, true, false, Option, none, some, List, [], ◌∷◌, ◌≡◌, refl, arith,
  Bytes,
}
use libdbi_drivers.Prelude.Faults.{◌>>=◌, ◌>>◌, pure, Ensures, Ensures-bind}
use libdbi_drivers.Prelude.Int.{ℤ, pos, negsuc}
use libdbi_drivers.Oracle.Rows.{Described}
use libdbi_drivers.Oracle.Session.{
  Oci, Conn, QueryResult, Action, connected, with_stmt, prefetch, with_rows, selected, executed,
  prepared, dbd_query, dbd_free_query, _oracle_query_to_longlong, dbd_get_seq_last,
  dbd_get_seq_next,
}

-- What a caller does on a connection; a result that is there is freed.
pub data Op : Type 0 where
  query : Bytes → Op
  seq_last seq_next : Option Bytes → Op

module _ (oci : Oci) where
  -- There is a connection, and `n` handles of statements are allocated.
  abbrev pub Has : ℕ → Conn oci → Type 0
  Has n c = (c.is_connected ≡ true) × (c.handles.stmts ≡ n)

  -- One more is allocated for a result.
  abbrev Returns : ℕ → Option QueryResult → Conn oci → Type 0
  Returns n none c = Has n c
  Returns n (some r) c = Has (n + 1) c

  connected-Has : (n : ℕ) (c : Conn oci) → Has n c → Ensures (λ a c'. Has n c') (connected oci c)
  connected-Has n c (k, e) = rw k (refl, e)

  prefetch-Has :
      (z : ℤ) (m n : ℕ) (c : Conn oci) → Has n c → Ensures (λ a c'. Has n c') (prefetch oci z m c)
  prefetch-Has (pos zero) m n c k = k
  prefetch-Has (pos (suc z)) m n c k = k
  prefetch-Has (negsuc z) m n c k = k

  -- OCI can allocate a handle for a statement whenever it is asked to.
  abbrev pub AllocatesStatements : Type 0
  AllocatesStatements = (w : oci.World) → (oci.alloc_stmt w).0 ≡ true

  with_stmt-Has :
      (there : Bool) (n : ℕ) (c : Conn oci)
      → there ≡ true
      → Has n c
      → Ensures (λ a c'. Has (n + 1) c') (with_stmt oci there c)
  with_stmt-Has false n c e k = cc
  with_stmt-Has true n c e (k, h) = (k, omega arith)

  module _ (n : ℕ) where
    with_rows-Returns :
        (columns : List Described) (numrows : ℕ) (c : Conn oci)
        → Has (n + 1) c
        → Ensures (Returns n) (with_rows oci columns numrows c)
    unfolding with_rows
    with_rows-Returns columns numrows c k =
        Ensures-bind (λ a c'. Has (n + 1) c') (Returns n) (prefetch oci c.prefetch_rows numrows c) _
          (prefetch-Has c.prefetch_rows numrows (n + 1) c k) (λ a c' k. k)

    selected-Returns :
        (select : Bool) (c : Conn oci) → Has (n + 1) c → Ensures (Returns n) (selected oci select c)
    unfolding selected
    selected-Returns false c k = k
    selected-Returns true c k = with_rows-Returns _ _ _ k

    executed-Returns :
        (select ok : Bool) (c : Conn oci)
        → Has (n + 1) c
        → Ensures (Returns n) (executed oci select ok c)
    unfolding executed
    executed-Returns select false c (k, e) = (k, omega arith)
    executed-Returns select true c k = selected-Returns select c k

    prepared-Returns :
        (ok : Bool) (c : Conn oci) → Has (n + 1) c → Ensures (Returns n) (prepared oci ok c)
    unfolding prepared
    prepared-Returns false c (k, e) = (k, omega arith)
    prepared-Returns true c k = executed-Returns _ _ _ k

    dbd_query-Returns :
        (statement : Bytes) (c : Conn oci)
        → AllocatesStatements
        → Has n c
        → Ensures (Returns n) (dbd_query oci statement c)
    unfolding dbd_query
    dbd_query-Returns statement c allocates k =
        Ensures-bind (λ a c'. Has n c') (Returns n) _ _ (connected-Has n c k)
          (λ a c' k.
            Ensures-bind (λ a c''. Has (n + 1) c'') (Returns n) _ _
              (with_stmt-Has _ n _ (allocates c'.world) k) (λ a c'' k. prepared-Returns _ _ k))

    dropped : (c : Conn oci) → Has (n + 1) c → c.handles.stmts - 1 ≡ n
    dropped c (k, e) = omega arith

    to_longlong-Has :
        (statement : Bytes) (c : Conn oci)
        → AllocatesStatements
        → Has n c
        → Ensures (λ a c'. Has n c') (_oracle_query_to_longlong oci statement c)
    unfolding _oracle_query_to_longlong
    to_longlong-Has statement c allocates k =
        Ensures-bind (λ a c'. Has n c') (λ a c'. Has n c') _ _ (connected-Has n c k)
          (λ a c' k.
            Ensures-bind (λ a c''. Has (n + 1) c'') (λ a c''. Has n c'') _ _
              (with_stmt-Has _ n _ (allocates c'.world) k) (λ a c'' k. (k.0, dropped c'' k)))

    dbd_get_seq_last-Has :
        (sequence : Option Bytes) (c : Conn oci)
        → AllocatesStatements
        → Has n c
        → Ensures (λ a c'. Has n c') (dbd_get_seq_last oci sequence c)
    unfolding dbd_get_seq_last
    dbd_get_seq_last-Has none c allocates k = k
    dbd_get_seq_last-Has (some sequence) c allocates k = to_longlong-Has _ c allocates k

    dbd_get_seq_next-Has :
        (sequence : Option Bytes) (c : Conn oci)
        → AllocatesStatements
        → Has n c
        → Ensures (λ a c'. Has n c') (dbd_get_seq_next oci sequence c)
    unfolding dbd_get_seq_next
    dbd_get_seq_next-Has none c allocates k = k
    dbd_get_seq_next-Has (some sequence) c allocates k = to_longlong-Has _ c allocates k

  abbrev freed_if : Option QueryResult → Action oci (Unit {0})
  freed_if none = pure tt
  freed_if (some r) = dbd_free_query oci

  unfoldable pub perform : Op → Action oci (Unit {0})
  unfolding dbd_query dbd_free_query dbd_get_seq_last dbd_get_seq_next
  perform (query statement) = do r ← dbd_query oci statement; freed_if r
  perform (seq_last sequence) = do dbd_get_seq_last oci sequence; pure tt
  perform (seq_next sequence) = do dbd_get_seq_next oci sequence; pure tt

  unfoldable pub perform_all : List Op → Action oci (Unit {0})
  unfolding perform
  perform_all [] = pure tt
  perform_all (op ∷ ops) = perform op >> perform_all ops

  freed_if-Has :
      (r : Option QueryResult) (n : ℕ) (c : Conn oci)
      → Returns n r c
      → Ensures (λ a c'. Has n c') (freed_if r c)
  unfolding dbd_free_query
  freed_if-Has none n c k = k
  freed_if-Has (some r) n c (k, e) = (k, omega arith)

  perform-Has :
      (op : Op) (n : ℕ) (c : Conn oci)
      → AllocatesStatements
      → Has n c
      → Ensures (λ a c'. Has n c') (perform op c)
  unfolding perform
  perform-Has (query statement) n c allocates k =
      Ensures-bind (Returns n) (λ a c'. Has n c') _ _ (dbd_query-Returns n statement c allocates k)
        (λ r c' k. freed_if-Has r n c' k)
  perform-Has (seq_last sequence) n c allocates k =
      Ensures-bind (λ a c'. Has n c') (λ a c'. Has n c') _ _
        (dbd_get_seq_last-Has n sequence c allocates k) (λ r c' k. k)
  perform-Has (seq_next sequence) n c allocates k =
      Ensures-bind (λ a c'. Has n c') (λ a c'. Has n c') _ _
        (dbd_get_seq_next-Has n sequence c allocates k) (λ r c' k. k)

  -- If OCI can always allocate a handle for a statement, any queries on a connection, of which each result
  -- is freed, and any readings of sequences use no null pointer, whatever else OCI answers, and leave the connection and as many handles of statements
  -- allocated as there were.
  pub perform_all-Has :
      (ops : List Op) (n : ℕ) (c : Conn oci)
      → AllocatesStatements
      → Has n c
      → Ensures (λ a c'. Has n c') (perform_all ops c)
  unfolding perform_all
  perform_all-Has [] n c allocates k = k
  perform_all-Has (op ∷ ops) n c allocates k =
      Ensures-bind (λ a c'. Has n c') (λ a c'. Has n c') _ _ (perform-Has op n c allocates k)
        (λ a c' k. perform_all-Has ops n c' allocates k)
