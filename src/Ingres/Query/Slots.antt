-- ===== src/Ingres/Query/Slots.antt =====
-- The array of the rows of a result.
use libdbi_drivers.Prelude.{ℕ, zero, suc, ◌+◌, ◌≤◌, ◌<◌, none, some, ◌≡◌, arith, ltb, if◌then◌else◌}
use libdbi_drivers.Ingres.Query.{store_rows, fetch_all}

module _ (slot : ℕ → ℕ) (behind : (n : ℕ) → slot n ≡ n + 1) where
  -- After the array has grown.
  store_rows-grown :
      (n count : ℕ)
      → count < 40
      → store_rows slot n count 40 40 ≡ (if ltb (count + n) 40 then some (count + n) else none)
  unfolding store_rows
  store_rows-grown zero count h = ground arith
  store_rows-grown (suc n) count h = ground (arith, behind count, store_rows-grown n (count + 1))

  store_rows-first :
      (n count : ℕ)
      → count ≤ 10
      → store_rows slot n count 10 11 ≡ (if ltb (count + n) 40 then some (count + n) else none)
  unfolding store_rows
  store_rows-first zero count h = ground arith
  store_rows-first (suc n) count h =
      ground (arith, behind count, store_rows-first n (count + 1), store_rows-grown n (count + 1))

  -- libdbi keeps the first member of the array free: the row `count` goes to the member `count + 1`, and an
  -- array for ten rows has eleven members. Then fewer than 40 rows are stored, all of them, and with 40
  -- rows or more the fortieth is written behind the end of the array that was made longer.
  pub fetch_all-slots : (n : ℕ) → fetch_all slot 11 n ≡ (if ltb n 40 then some n else none)
  unfolding fetch_all
  fetch_all-slots n = ground (arith, store_rows-first n 0)
