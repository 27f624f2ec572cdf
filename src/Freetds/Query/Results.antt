-- ===== src/Freetds/Query/Results.antt =====
-- What `dbd_query` makes of the events.
use mathlib.Core.List.{append-nil}
use libdbi_drivers.Prelude.{
  ℕ, suc, ◌+◌, Bool, true, false, Option, none, some, List, [], ◌∷◌, ◌++◌, ◌≡◌, refl, ap, ◌∙◌,
  arith, Bytes, length,
}
use libdbi_drivers.Freetds.Types.{Datafmt}
use libdbi_drivers.Freetds.Query.{
  Fetch, row, row_fail, end_data, RowResult, Event, rowfmt_result, cmd_succeed, cmd_done, cmd_fail,
  compute_result, status_result, other_result, row_result, ResultsEnd, end_results, rows_returned,
  Result, fetched, ended, State, Outcome, failed, undefined, returned, Step, stops, goes_on,
  fields_of, fetch_rows, read_rows, one_event, with_result, run, dbd_query,
}

-- Events that bring no rows and no failure.
abbrev pub IsQuiet : Event → Type 0
IsQuiet rowfmt_result = Unit {0}
IsQuiet cmd_succeed = Unit {0}
IsQuiet cmd_done = Unit {0}
IsQuiet status_result = Unit {0}
IsQuiet e = ⊥

abbrev pub AreQuiet : List Event → Type 0
AreQuiet [] = Unit {0}
AreQuiet (e ∷ events) = IsQuiet e × AreQuiet events

-- Fetches that all succeed.
abbrev pub AreRows : List Fetch → Type 0
AreRows [] = Unit {0}
AreRows (row true ∷ fetches) = AreRows fetches
AreRows (f ∷ fetches) = ⊥

fetch_rows-AreRows :
    (n : ℕ) (fetches : List Fetch)
    → AreRows fetches
    → fetch_rows n fetches ≡ some (length fetches + n)
unfolding fetch_rows
fetch_rows-AreRows n [] h = ap (λ (k : ℕ). some k) (omega arith)
fetch_rows-AreRows n (row true ∷ fetches) h =
    fetch_rows-AreRows (suc n) fetches h ∙ ap (λ (k : ℕ). some k) (omega arith)
fetch_rows-AreRows n (row false ∷ fetches) h = absurd h
fetch_rows-AreRows n (row_fail ∷ fetches) h = absurd h

-- Quiet events keep a result, and begin one without rows.
quiet : Option Result → List Event → Option Result
quiet o [] = o
quiet o (cmd_succeed ∷ events) = quiet (with_result o) events
quiet o (e ∷ events) = quiet o events

run-quiet :
    (o : Option Result) (b : Bool) (events more : List Event) (fin : ResultsEnd)
    → AreQuiet events
    → run (record { result = o; is_freed = b }) (events ++ more) fin
      ≡ run (record { result = quiet o events; is_freed = b }) more fin
unfolding run quiet
run-quiet o b [] more fin h = refl
run-quiet o b (rowfmt_result ∷ events) more fin (h, hs) = run-quiet o b events more fin hs
run-quiet o b (cmd_succeed ∷ events) more fin (h, hs) =
    run-quiet (with_result o) b events more fin hs
run-quiet o b (cmd_done ∷ events) more fin (h, hs) = run-quiet o b events more fin hs
run-quiet o b (status_result ∷ events) more fin (h, hs) = run-quiet o b events more fin hs
run-quiet o b (cmd_fail ∷ events) more fin (h, hs) = absurd h
run-quiet o b (compute_result ∷ events) more fin (h, hs) = absurd h
run-quiet o b (other_result ∷ events) more fin (h, hs) = absurd h
run-quiet o b (row_result r ∷ events) more fin (h, hs) = absurd h

quiet-some : (r : Result) (events : List Event) → AreQuiet events → quiet (some r) events ≡ some r
unfolding quiet
quiet-some r [] h = refl
quiet-some r (rowfmt_result ∷ events) (h, hs) = quiet-some r events hs
quiet-some r (cmd_succeed ∷ events) (h, hs) = quiet-some r events hs
quiet-some r (cmd_done ∷ events) (h, hs) = quiet-some r events hs
quiet-some r (status_result ∷ events) (h, hs) = quiet-some r events hs
quiet-some r (cmd_fail ∷ events) (h, hs) = absurd h
quiet-some r (compute_result ∷ events) (h, hs) = absurd h
quiet-some r (other_result ∷ events) (h, hs) = absurd h
quiet-some r (row_result x ∷ events) (h, hs) = absurd h

-- Events without a result with rows, and with one at most.
abbrev pub HasNoRows : List Event → Type 0
HasNoRows [] = Unit {0}
HasNoRows (row_result r ∷ events) = ⊥
HasNoRows (e ∷ events) = HasNoRows events

abbrev pub HasOneAtMost : List Event → Type 0
HasOneAtMost [] = Unit {0}
HasOneAtMost (row_result r ∷ events) = HasNoRows events
HasOneAtMost (e ∷ events) = HasOneAtMost events

-- A pass that stops the loop returns a null pointer.
abbrev FailsOrGoesOn : Step → Type 0
FailsOrGoesOn (stops failed) = Unit {0}
FailsOrGoesOn (stops outcome) = ⊥
FailsOrGoesOn (goes_on st) = Unit {0}

read_rows-FailsOrGoesOn :
    (r : RowResult) (columns : Option (List (Bytes × Datafmt)))
    → FailsOrGoesOn (read_rows r columns false)
unfolding read_rows
read_rows-FailsOrGoesOn r none = tt
read_rows-FailsOrGoesOn r (some []) = ground arith
read_rows-FailsOrGoesOn r (some (c ∷ cs)) = ground arith

step-failed :
    (s : Step) (again : State → Outcome)
    → FailsOrGoesOn s
    → ((st : State) → again st ≡ failed)
    → (elim s as (λ x. Outcome) [ stops outcome ↦ outcome | goes_on st ↦ again st ]) ≡ failed
step-failed (stops failed) again h k = refl
step-failed (stops undefined) again h k = absurd h
step-failed (stops (returned r)) again h k = absurd h
step-failed (goes_on st) again h k = k st

module _ (more : List Event) (fin : ResultsEnd) where
  run-HasNoRows :
      (st : State) (events : List Event)
      → HasNoRows events
      → run st (events ++ cmd_fail ∷ more) fin ≡ failed
  unfolding run one_event
  run-HasNoRows st [] h = refl
  run-HasNoRows st (rowfmt_result ∷ events) h = run-HasNoRows _ events h
  run-HasNoRows st (cmd_succeed ∷ events) h = run-HasNoRows _ events h
  run-HasNoRows st (cmd_done ∷ events) h = run-HasNoRows _ events h
  run-HasNoRows st (status_result ∷ events) h = run-HasNoRows _ events h
  run-HasNoRows st (cmd_fail ∷ events) h = refl
  run-HasNoRows st (compute_result ∷ events) h = refl
  run-HasNoRows st (other_result ∷ events) h = refl
  run-HasNoRows st (row_result r ∷ events) h = absurd h

  run-HasOneAtMost :
      (o : Option Result) (events : List Event)
      → HasOneAtMost events
      → run (record { result = o; is_freed = false }) (events ++ cmd_fail ∷ more) fin ≡ failed
  unfolding run one_event
  run-HasOneAtMost o [] h = refl
  run-HasOneAtMost o (rowfmt_result ∷ events) h = run-HasOneAtMost o events h
  run-HasOneAtMost o (cmd_succeed ∷ events) h = run-HasOneAtMost (with_result o) events h
  run-HasOneAtMost o (cmd_done ∷ events) h = run-HasOneAtMost o events h
  run-HasOneAtMost o (status_result ∷ events) h = run-HasOneAtMost o events h
  run-HasOneAtMost o (cmd_fail ∷ events) h = refl
  run-HasOneAtMost o (compute_result ∷ events) h = refl
  run-HasOneAtMost o (other_result ∷ events) h = refl
  run-HasOneAtMost o (row_result r ∷ events) h =
      step-failed (read_rows r r.columns false) (λ st. run st (events ++ cmd_fail ∷ more) fin)
        (read_rows-FailsOrGoesOn r r.columns) (λ st. run-HasNoRows st events h)

-- A command that fails is an error, a null pointer, whatever follows it, if at most one result with rows
-- came before it, described or not and fetched to its end or not.
pub dbd_query-cmd_fail :
    (is_sent : Bool) (events more : List Event) (fin : ResultsEnd)
    → HasOneAtMost events
    → dbd_query is_sent (events ++ cmd_fail ∷ more) fin ≡ failed
unfolding dbd_query
dbd_query-cmd_fail false events more fin h = refl
dbd_query-cmd_fail true events more fin h = run-HasOneAtMost more fin none events h

fetched-end_data :
    (r : RowResult) (columns : List (Bytes × Datafmt))
    → r.is_bound ≡ true
    → AreRows r.fetches
    → r.ended ≡ end_data
    → fetched r columns false ≡ ended end_data columns (length r.fetches) false
fetched-end_data r columns bound rows e =
    rw (bound, fetched, fetch_rows-AreRows 0 r.fetches rows, fetched, e)
      (ap (λ (n : ℕ). ended end_data columns n false) (omega arith))

-- What is returned after a result with rows.
abbrev pub result_of : RowResult → List (Bytes × Datafmt) → Result
result_of r columns = record {
  state = rows_returned;
  fields = fields_of columns;
  numrows_matched = length r.fetches;
}

abbrev is_freed_by : List (Bytes × Datafmt) → Bool
is_freed_by [] = false
is_freed_by (c ∷ cs) = true

read_rows-end_data :
    (r : RowResult) (columns : List (Bytes × Datafmt))
    → r.is_bound ≡ true
    → AreRows r.fetches
    → r.ended ≡ end_data
    → read_rows r (some columns) false
      ≡ goes_on (record { result = some (result_of r columns); is_freed = is_freed_by columns })
unfolding read_rows
read_rows-end_data r [] bound rows e = fetched-end_data r [] bound rows e
read_rows-end_data r (c ∷ cs) bound rows e = fetched-end_data r (c ∷ cs) bound rows e

run-rows :
    (o : Option Result) (r : RowResult) (columns : List (Bytes × Datafmt)) (more : List Event)
    (fin : ResultsEnd)
    → r.columns ≡ some columns
    → r.is_bound ≡ true
    → AreRows r.fetches
    → r.ended ≡ end_data
    → run (record { result = o; is_freed = false }) (row_result r ∷ more) fin
      ≡ run
          (record { result = some (result_of r columns); is_freed = is_freed_by columns })
          more
          fin
unfolding run one_event
run-rows o r columns more fin described bound rows e =
    rw (run, described, read_rows-end_data r columns bound rows e) refl

run-end :
    (o : Option Result) (b : Bool)
    → run (record { result = o; is_freed = b }) [] end_results ≡ returned o
unfolding run
run-end o b = refl

-- A command that is sent and answers with one result with rows, all of which are fetched to the end of
-- the data, and else with events that bring no rows and no failure, returns that result: its fields
-- by the columns, and as many rows as were fetched.
pub dbd_query-rows :
    (before after : List Event) (r : RowResult) (columns : List (Bytes × Datafmt))
    → AreQuiet before
    → AreQuiet after
    → r.columns ≡ some columns
    → r.is_bound ≡ true
    → AreRows r.fetches
    → r.ended ≡ end_data
    → dbd_query true (before ++ row_result r ∷ after) end_results
      ≡ returned (
          some (record {
            state = rows_returned;
            fields = fields_of columns;
            numrows_matched = length r.fetches;
          }))
unfolding dbd_query
dbd_query-rows before after r columns h k described bound rows e =
    run-quiet none false before (row_result r ∷ after) end_results h
    ∙ run-rows (quiet none before) r columns after end_results described bound rows e
    ∙ rw append-nil at
        (run-quiet (some (result_of r columns)) (is_freed_by columns) after [] end_results k)
    ∙ run-end (quiet (some (result_of r columns)) after) (is_freed_by columns)
    ∙ ap (λ o. returned o) (quiet-some (result_of r columns) after k)
