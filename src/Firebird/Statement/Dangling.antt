-- ===== src/Firebird/Statement/Dangling.antt =====
-- The buffer of a row is freed before a row is fetched.
use libdbi_drivers.Prelude.{
  ℕ, Bool, true, false, Option, none, some, List, [], ◌∷◌, ◌≡◌, refl, ◌≢◌, Bytes,
}
use mathlib.Core.Path.{subst, sym}
use libdbi_drivers.Prelude.Opened.{without}
use libdbi_drivers.Prelude.Faults.{◌>>=◌, ◌>>◌, pure, Ensures, Allows, Allows-then, Allows-some}
use libdbi_drivers.Firebird.Layout.{Column}
use libdbi_drivers.Firebird.Statement.{
  Isc, call, StatementType, stmt_ddl, stmt_other, connected, Conn, Buffer, absent, live, freed,
  Statement, get_trans, allocate, commit, start, committed, commit_ddl, executed, execute,
  described, with_type, prepared, allocated, dbd_query, dbd_free_query, stored, fetch,
  generator_query, first_value, return_generator_value,
}
use libdbi_drivers.Firebird.Statement.Handles.{SaysTypes, Has, Returns, dbd_query-Returns}

module _ (isc : Isc) where
  -- A result that is there has no memory for its rows.
  abbrev IsUnbuffered : Option Statement → Conn isc → Type 0
  IsUnbuffered none c = Unit {0}
  IsUnbuffered (some s) c = s.buffer ≢ live

  committed-IsUnbuffered :
      (h : ℕ) (ok : Bool) (c : Conn isc) → Allows IsUnbuffered (committed isc h ok c)
  unfolding committed
  committed-IsUnbuffered h false c = tt
  committed-IsUnbuffered h true c = Allows-then IsUnbuffered (start isc c) _ (λ a c'. λ e. cc)

  commit_ddl-IsUnbuffered :
      (h : ℕ) (trans : Bool) (kind : Option StatementType) (c : Conn isc)
      → Allows IsUnbuffered (commit_ddl isc h trans kind c)
  unfolding commit_ddl
  commit_ddl-IsUnbuffered h false kind c = cc
  commit_ddl-IsUnbuffered h true none c = tt
  commit_ddl-IsUnbuffered h true (some stmt_other) c = cc
  commit_ddl-IsUnbuffered h true (some stmt_ddl) c =
      Allows-then IsUnbuffered (commit isc c) _ (λ ok c'. committed-IsUnbuffered h ok c')

  executed-IsUnbuffered :
      (h : ℕ) (columns : List Column) (kind : Option StatementType) (ok : Bool) (c : Conn isc)
      → Allows IsUnbuffered (executed isc h columns kind ok c)
  unfolding executed
  executed-IsUnbuffered h columns kind false c = tt
  executed-IsUnbuffered h [] kind true c =
      Allows-then IsUnbuffered (get_trans isc c) _
        (λ trans c'. commit_ddl-IsUnbuffered h trans kind c')
  executed-IsUnbuffered h (d ∷ columns) kind true c = cc

  execute-IsUnbuffered :
      (h : ℕ) (columns : List Column) (kind : Option StatementType) (c : Conn isc)
      → Allows IsUnbuffered (execute isc h columns kind c)
  unfolding execute
  execute-IsUnbuffered h columns kind c = Allows-then IsUnbuffered (get_trans isc c) _ (λ trans c'.
      Allows-then IsUnbuffered (call isc (isc.execute trans h) c') _
        (λ ok c'. executed-IsUnbuffered h columns kind ok c'))

  described-IsUnbuffered :
      (h : ℕ) (kind : Option StatementType) (columns : Option (List Column)) (c : Conn isc)
      → Allows IsUnbuffered (described isc h kind columns c)
  unfolding described
  described-IsUnbuffered h kind none c = tt
  described-IsUnbuffered h kind (some columns) c = execute-IsUnbuffered h columns kind c

  with_type-IsUnbuffered :
      (h : ℕ) (columns : List Column) (kind : Option StatementType) (c : Conn isc)
      → Allows IsUnbuffered (with_type isc h columns kind c)
  unfolding with_type
  with_type-IsUnbuffered h [] kind c = execute-IsUnbuffered h [] kind c
  with_type-IsUnbuffered h (d ∷ []) kind c = execute-IsUnbuffered h (d ∷ []) kind c
  with_type-IsUnbuffered h (d ∷ d' ∷ columns) kind c =
      Allows-then IsUnbuffered (call isc (isc.describe h) c) _
        (λ more c'. described-IsUnbuffered h kind more c')

  prepared-IsUnbuffered :
      (h : ℕ) (columns : Option (List Column)) (c : Conn isc)
      → Allows IsUnbuffered (prepared isc h columns c)
  unfolding prepared
  prepared-IsUnbuffered h none c = tt
  prepared-IsUnbuffered h (some columns) c =
      Allows-then IsUnbuffered (call isc (isc.sql_info h) c) _
        (λ kind c'. with_type-IsUnbuffered h columns kind c')

  allocated-IsUnbuffered :
      (statement : Bytes) (o : Option ℕ) (c : Conn isc)
      → Allows IsUnbuffered (allocated isc statement o c)
  unfolding allocated
  allocated-IsUnbuffered statement none c = tt
  allocated-IsUnbuffered statement (some h) c =
      Allows-then IsUnbuffered (get_trans isc c) _ (λ trans c'.
        Allows-then IsUnbuffered (call isc (isc.prepare trans h statement) c') _
          (λ columns c'. prepared-IsUnbuffered h columns c'))

  dbd_query-IsUnbuffered :
      (statement : Bytes) (c : Conn isc) → Allows IsUnbuffered (dbd_query isc statement c)
  unfolding dbd_query
  dbd_query-IsUnbuffered statement c = Allows-then IsUnbuffered (get_trans isc c) _ (λ trans c'.
      Allows-then IsUnbuffered (allocate isc c') _ (λ o c'. allocated-IsUnbuffered statement o c'))

  stored-none :
      (buffer : Buffer) (value : Option ℕ) (c : Conn isc)
      → buffer ≢ live
      → Allows (λ a c'. a ≡ none) (stored isc buffer value c)
  stored-none buffer none c n = refl
  stored-none live (some value) c n = absurd (n refl)
  stored-none freed (some value) c n = tt
  stored-none absent (some value) c n = tt

  fetch-none :
      (s : Statement) (c : Conn isc) → s.buffer ≢ live → Allows (λ a c'. a ≡ none) (fetch isc s c)
  unfolding fetch
  fetch-none s c n =
      Allows-then (λ a c'. a ≡ none) (get_trans isc c) _
        (λ trans c'.
          Allows-then (λ a c'. a ≡ none) (call isc (isc.fetch s.stmt) c') _
            (λ value c'. stored-none s.buffer value c' n))

  -- No row of a result that `dbd_query` returns is ever read: `dbd_query` frees the buffer for the rows
  -- before it returns, and a fetch that brings a row writes to it.
  pub fetch-dbd_query :
      (statement : Bytes) (c c' c'' : Conn isc) (s : Statement) (value : Option ℕ)
      → dbd_query isc statement c ≡ some (some s, c')
      → fetch isc s c' ≡ some (value, c'')
      → value ≡ none
  fetch-dbd_query statement c c' c'' s value q f =
      Allows-some (λ a c'. a ≡ none) (fetch isc s c')
        (fetch-none s c' (Allows-some IsUnbuffered _ (dbd_query-IsUnbuffered statement c) q)) f

  -- What `dbd_query` frees the buffer of is told by its result.
  unbuffered :
      (statement : Bytes) (c c' : Conn isc) (s : Statement)
      → dbd_query isc statement c ≡ some (some s, c')
      → s.buffer ≢ live
  unbuffered statement c c' s q = Allows-some IsUnbuffered _ (dbd_query-IsUnbuffered statement c) q

  -- The connection after the fetch of no row, and after its result is freed.
  abbrev pub dropped : Statement → Conn isc → Conn isc
  dropped s c = record c {
    world = isc.drop s.stmt (isc.fetch s.stmt c.world).1;
    statements = without c.statements s.stmt;
  }

  -- What is left of `first_value` behind the call of `isc_dsql_fetch`.
  abbrev behind_fetch : Statement → Option ℕ → Conn isc → Option (ℕ × Conn isc)
  behind_fetch s v = stored isc s.buffer v >>= λ value.
      dbd_free_query isc s >> pure (elim value [ none ↦ 0 | some n ↦ n ])

  abbrev at_fetch : Statement → Conn isc → Conn isc
  at_fetch s c = record c { world = (isc.fetch s.stmt c.world).1 }

  behind_fetch-on :
      (s : Statement) (x : Buffer) (trans : Bool) (v : Option ℕ) (c : Conn isc)
      → x ≢ live
      → behind_fetch
          (record s { buffer = x })
          v
          (at_fetch s (record c { connection = connected trans }))
        ≡ elim v [
          | none ↦ some (0, dropped s (record c { connection = connected trans }))
          | some n ↦ none
        ]
  unfolding dbd_free_query
  behind_fetch-on s live trans v c b = absurd (b refl)
  behind_fetch-on s absent trans none c b = refl
  behind_fetch-on s absent trans (some n) c b = refl
  behind_fetch-on s freed trans none c b = refl
  behind_fetch-on s freed trans (some n) c b = refl

  first_value-on :
      (s : Statement) (x : Buffer) (trans : Bool) (c : Conn isc)
      → x ≢ live
      → first_value isc (some (record s { buffer = x })) (record c { connection = connected trans })
        ≡ elim (isc.fetch s.stmt c.world).0 [
          | none ↦ some (0, dropped s (record c { connection = connected trans }))
          | some n ↦ none
        ]
  unfolding fetch
  first_value-on s x trans c b = behind_fetch-on s x trans (isc.fetch s.stmt c.world).0 c b

  first_value-fault :
      (s : Statement) (hs : List ℕ) (c : Conn isc)
      → s.buffer ≢ live
      → Has isc hs c
      → first_value isc (some s) c
        ≡ elim (isc.fetch s.stmt c.world).0 [ none ↦ some (0, dropped s c) | some n ↦ none ]
  first_value-fault s hs c b ((trans, k), e) =
      subst
        (λ x.
          first_value isc (some s) (record c { connection = x })
          ≡ elim (isc.fetch s.stmt c.world).0 [
            | none ↦ some (0, dropped s (record c { connection = x }))
            | some n ↦ none
          ])
        (sym k) (first_value-on s s.buffer trans c b)

  -- On a connection, where the server says of every statement of what type it is and the query of the
  -- generator has a result: `return_generator_value`, and with it `dbd_get_seq_next` and
  -- `dbd_get_seq_last`, returns 0 and gives the statement back if the server has no row, and if it
  -- has one, writes the generator's value to memory that is freed.
  pub return_generator_value-fault :
      SaysTypes isc
      → (sequence : Bytes) (type : ℕ) (hs : List ℕ) (c c' : Conn isc) (s : Statement) → Has isc hs c
      → dbd_query isc (generator_query isc sequence type) c ≡ some (some s, c')
      → return_generator_value isc sequence type c
        ≡ elim (isc.fetch s.stmt c'.world).0 [ none ↦ some (0, dropped s c') | some n ↦ none ]
  unfolding return_generator_value
  return_generator_value-fault says sequence type hs c c' s k q =
      subst
        (λ o.
          (elim o as (λ x. Option (ℕ × Conn isc)) [
            | none ↦ none
            | some (a, d) ↦ first_value isc a d
          ])
          ≡ elim (isc.fetch s.stmt c'.world).0 [ none ↦ some (0, dropped s c') | some n ↦ none ])
        (sym q)
        (first_value-fault s (s.stmt ∷ hs) c' (unbuffered _ c c' s q)
          (subst (Ensures (Returns isc hs)) q (dbd_query-Returns isc says _ hs c k)))
