-- ===== src/Sqlite3/Tables/Terminates.antt =====
-- The fuel of `getTables`.
use libdbi_drivers.Sqlite3.Tables.{Parsed, listed, overrun, out_of_fuel}
use libdbi_drivers.Sqlite3.Tables.Shorter.{Shorter}

-- A result other than the end of the fuel.
abbrev pub Ends : Parsed → Type 0
Ends (listed tables) = Unit {0}
Ends overrun = Unit {0}
Ends out_of_fuel = ⊥
