-- ===== src/Tests/Connection.antt =====
-- Connections of the pgsql driver at concrete inputs.
use libdbi_drivers.Prelude.{
  ℕ, Bool, false, ◌||◌, none, some, List, [], ◌∷◌, ◌≡◌, ◌+◌, refl, arith, ◌==◌, if◌then◌else◌,
  Bytes, codes, length,
}
use libdbi_drivers.Prelude.Faults.{Ensures}
use libdbi_drivers.Prelude.Int.{ℤ, pos, negsuc}
use libdbi_drivers.Pgsql.Conninfo.{text, number, Options, keyword, chosen_dbname, conninfo}
use libdbi_drivers.Pgsql.Conninfo.RoundTrip.{backslashed, read_settings, AreKeywords}
use libdbi_drivers.Pgsql.Conninfo.Settings.{IsBare, settings, read_settings-conninfo}
use libdbi_drivers.Pgsql.Connection.{Libpq, Conn, tuples_ok, _dbd_real_connect}
use libdbi_drivers.Pgsql.Connection.Handles.{Connects, _dbd_real_connect-Connects}
use libdbi_drivers.Pgsql.Connection.Sessions.{
  select_db, query, seq_next, ping, session, session-opened,
}

abbrev is_among : List ℕ → ℕ → Bool
is_among [] c = false
is_among (x ∷ xs) c = is_among xs c || c == x

-- A backslash before each of the characters.
abbrev escape_chars : Bytes → Bytes → Bytes
escape_chars [] chars = []
escape_chars (c ∷ s) chars =
    if is_among chars c then b'\\' ∷ c ∷ escape_chars s chars else c ∷ escape_chars s chars

escape_chars-backslashed : (s : Bytes) → escape_chars s (b'\\' ∷ b'\'' ∷ []) ≡ backslashed s
escape_chars-backslashed [] = refl
escape_chars-backslashed (c ∷ s) = ground (arith, escape_chars-backslashed s)

-- Small numbers in decimal.
abbrev print_int : ℤ → Bytes
print_int (pos n) = if n == 5433 then codes "5433" else codes "0"
print_int (negsuc n) = codes "-1"

print_int-IsBare : (z : ℤ) → IsBare (print_int z)
print_int-IsBare (pos n) = ground arith
print_int-IsBare (negsuc n) = ground arith

abbrev options : Options
options =
    (codes "host", text (codes "db1"))
    ∷ (codes "port", number (pos 5433))
    ∷ (codes "username", text (codes "o'neil"))
    ∷ (codes "dbname", text (codes "it's \\ here"))
    ∷ (codes "pgsql_options", text (codes "-c a=b"))
    ∷ (codes "other", text (codes "x"))
    ∷ []

options-AreKeywords : AreKeywords (settings print_int options [])
unfolding keyword chosen_dbname
options-AreKeywords = ground arith

read_settings-conninfo_example :
    read_settings
      (length (settings print_int options []))
      (conninfo escape_chars print_int options [])
    ≡ some (settings print_int options [])
read_settings-conninfo_example =
    read_settings-conninfo escape_chars print_int escape_chars-backslashed print_int-IsBare options
      [] options-AreKeywords

-- A server that lets in the user of every second connection, and that answers each query with 7.
abbrev sample_libpq : Libpq
sample_libpq = record {
  World = ℕ;
  connectdb = λ info w. (some w, w + 1);
  is_ok = λ h w. h == 0 || h == 2;
  set_client_encoding = λ h enc w. w;
  exec = λ o statement w. (
    some (record {
      status = tuples_ok;
      ntuples = 1;
      cmd_tuples = codes "1";
      columns = [];
      first = some (codes "7");
    }),
    w,
  );
  reset = λ h w. w;
  finish = λ h w. w;
  escape_chars = escape_chars;
  print_int = print_int;
}

abbrev unconnected : Conn sample_libpq
unconnected = record {
  options = options;
  connection = none;
  current_db = none;
  world = 0;
  opened = [];
}

_dbd_real_connect-Connects_example :
    Ensures (Connects sample_libpq) (_dbd_real_connect sample_libpq [] unconnected)
_dbd_real_connect-Connects_example =
    _dbd_real_connect-Connects sample_libpq [] unconnected (refl, refl)

session-opened_example :
    Ensures
      (λ a c. c.opened ≡ [])
      (session sample_libpq
        (query (codes "SELECT 7")
          ∷ select_db (codes "two")
          ∷ ping
          ∷ select_db (codes "three")
          ∷ seq_next (codes "s")
          ∷ [])
        unconnected)
session-opened_example = session-opened sample_libpq _ unconnected (refl, refl)
