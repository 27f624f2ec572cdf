-- ===== src/Ingres/Query/Closed.antt =====
-- The statements that `ingres_query` and the freeing of its result leave open.
use libdbi_drivers.Prelude.{
  ℕ, Bool, true, false, Option, none, some, List, [], ◌∷◌, ◌≡◌, refl, inl, inr, Bool-cases, Bytes,
  codes,
}
use libdbi_drivers.Prelude.Faults.{◌>>◌, pure, Ensures, Ensures-bind, Ensures-map}
use libdbi_drivers.Prelude.Opened.{without_self}
use libdbi_drivers.Dbi.{Field}
use libdbi_drivers.Ingres.Query.{
  Status, IiApi, Conn, QueryResult, Action, begins_with, add_stmt, ingres_close, ended,
  ingres_results, dbd_free_query, with_fields, described, started, run, query_connected,
  ingres_query, ingres_commit, ingres_rollback,
}

module _ (ii : IiApi) where
  abbrev Leaves : List ℕ → {A : Type 0} → Option (A × Conn ii) → Type 0
  Leaves hs = Ensures (λ a c'. c'.stmts ≡ hs)

  -- The statement that a result keeps.
  abbrev pub kept : Option QueryResult → Option ℕ
  kept none = none
  kept (some r) = r.stmt

  -- libdbi frees a result that is there.
  abbrev pub free_result : Option QueryResult → Action ii (Unit {0})
  free_result none = pure tt
  free_result (some r) = dbd_free_query ii r

  -- There is always memory for the buffers of a row's values.
  abbrev pub AllocatesBuffers : Type 0
  AllocatesBuffers = (fields : List Field) (w : ii.World) → (ii.alloc_buffers fields w).0 ≡ true

  -- The open statements are `hs` and the one that the result keeps, which there is none of with memory.
  abbrev IsKept : List ℕ → Option QueryResult → Conn ii → Type 0
  IsKept hs r c = (c.stmts ≡ add_stmt ii (kept r) hs) × (AllocatesBuffers → kept r ≡ none)

  abbrev Keeps : List ℕ → Option (Option QueryResult × Conn ii) → Type 0
  Keeps hs = Ensures (IsKept hs)

  close-Leaves :
      (stmt : Option ℕ) (hs : List ℕ) (c : Conn ii)
      → c.stmts ≡ add_stmt ii stmt hs
      → Leaves hs (ingres_close ii stmt c)
  unfolding ingres_close
  close-Leaves none hs c e = e
  close-Leaves (some h) hs c e = rw (e, without_self h hs) refl

  close-Keeps :
      (o : Option QueryResult) (stmt : Option ℕ) (hs : List ℕ) (c : Conn ii)
      → kept o ≡ none
      → c.stmts ≡ add_stmt ii stmt hs
      → Keeps hs ((do ingres_close ii stmt; pure o) c)
  close-Keeps o stmt hs c k e =
      Ensures-bind (λ a c'. c'.stmts ≡ hs) (IsKept hs) (ingres_close ii stmt c) _
        (close-Leaves stmt hs c e) (λ a c' e'. (rw k e', λ m. k))

  ingres_results-Keeps :
      (stmt : Option ℕ) (fields : List Field) (there : Bool) (hs : List ℕ) (c : Conn ii)
      → c.stmts ≡ add_stmt ii stmt hs
      → (AllocatesBuffers → there ≡ true)
      → Keeps hs (ingres_results ii stmt fields there c)
  unfolding ingres_results
  ingres_results-Keeps stmt fields false hs c e m = (e, λ always. absurd (no (m always)))
    where
      no : false ≡ true → ⊥
      no p = cc
  ingres_results-Keeps stmt fields true hs c e m = close-Keeps _ stmt hs _ refl e

  with_fields-Keeps :
      (stmt : Option ℕ) (fields : List Field) (hs : List ℕ) (c : Conn ii)
      → c.stmts ≡ add_stmt ii stmt hs
      → Keeps hs (with_fields ii stmt fields c)
  unfolding with_fields
  with_fields-Keeps stmt [] hs c e = close-Keeps _ stmt hs _ refl e
  with_fields-Keeps stmt (f ∷ fields) hs c e =
      ingres_results-Keeps stmt (f ∷ fields) _ hs _ e (λ always. always (f ∷ fields) c.world)

  described-Keeps :
      (stmt : Option ℕ) (ok : Bool) (hs : List ℕ) (c : Conn ii)
      → c.stmts ≡ add_stmt ii stmt hs
      → Keeps hs (described ii stmt ok c)
  unfolding described
  described-Keeps stmt false hs c e = close-Keeps none stmt hs c refl e
  described-Keeps stmt true hs c e = with_fields-Keeps stmt (ii.fields stmt c.world) hs c e

  started-Keeps :
      (stmt : Option ℕ) (ok : Bool) (hs : List ℕ) (c : Conn ii)
      → c.stmts ≡ add_stmt ii stmt hs
      → Keeps hs (started ii stmt ok c)
  unfolding started
  started-Keeps stmt false hs c e = close-Keeps none stmt hs c refl e
  started-Keeps stmt true hs c e = described-Keeps stmt _ hs _ e

  ended-Keeps : (status : Status) (c : Conn ii) → Keeps c.stmts (ended ii status c)
  unfolding ended
  ended-Keeps Status.success c = (refl, λ m. refl)
  ended-Keeps Status.message c = (refl, λ m. refl)
  ended-Keeps Status.warning c = (refl, λ m. refl)
  ended-Keeps Status.no_data c = (refl, λ m. refl)
  ended-Keeps Status.error c = (refl, λ m. refl)

  query_connected-Keeps :
      (statement : Bytes) (b : Bool) (c : Conn ii)
      → Keeps c.stmts (query_connected ii statement b c)
  unfolding query_connected ingres_commit ingres_rollback run
  query_connected-Keeps statement false c = (refl, λ m. refl)
  query_connected-Keeps statement true c =
      elim (Bool-cases (begins_with (codes "COMMIT") statement)) [
        | inl e ↦ rw e (ended-Keeps (ii.commit c.curr_tran c.world).0 _)
        | inr e ↦ elim (Bool-cases (begins_with (codes "ROLLBACK") statement)) [
          | inl e' ↦ rw (e, e') (ended-Keeps (ii.rollback c.curr_tran c.world).0 _)
          | inr e' ↦ rw (e, e') (started-Keeps _ _ c.stmts _ refl)
        ]
      ]

  free_result-Leaves :
      (r : Option QueryResult) (hs : List ℕ) (c : Conn ii)
      → c.stmts ≡ add_stmt ii (kept r) hs
      → Leaves hs (free_result r c)
  unfolding dbd_free_query
  free_result-Leaves none hs c e = e
  free_result-Leaves (some r) hs c e = close-Leaves r.stmt hs c e

  -- Whatever the Ingres API answers and whether or not there is memory for the buffers of a row's values,
  -- the open statements after `ingres_query` are those of before and the one that the result keeps, if it
  -- keeps one, and once the result is freed they are the same as before.
  pub ingres_query-kept :
      (statement : Bytes) (c : Conn ii)
      → Ensures
          (λ result c'.
            (c'.stmts ≡ add_stmt ii (kept result) c.stmts)
            × Ensures (λ a c''. c''.stmts ≡ c.stmts) (free_result result c'))
          (ingres_query ii statement c)
  unfolding ingres_query
  ingres_query-kept statement c =
      Ensures-map (IsKept c.stmts)
        (λ result c'.
          (c'.stmts ≡ add_stmt ii (kept result) c.stmts)
          × Ensures (λ a c''. c''.stmts ≡ c.stmts) (free_result result c'))
        (query_connected ii statement c.is_connected c)
        (query_connected-Keeps statement c.is_connected c)
        (λ r c' k. (k.0, free_result-Leaves r c.stmts c' k.0))

  -- If there is always memory for the buffers of a row's values, a statement that `ingres_query` starts is
  -- closed when it returns, whatever the Ingres API answers: the open statements of the connection are the
  -- same as before.
  pub ingres_query-closed :
      (statement : Bytes) (c : Conn ii)
      → AllocatesBuffers
      → Ensures (λ result c'. c'.stmts ≡ c.stmts) (ingres_query ii statement c)
  unfolding ingres_query
  ingres_query-closed statement c always =
      Ensures-map (IsKept c.stmts) (λ result c'. c'.stmts ≡ c.stmts)
        (query_connected ii statement c.is_connected c)
        (query_connected-Keeps statement c.is_connected c) (λ r c' k. rw (k.1 always) at k.0)
