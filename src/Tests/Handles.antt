-- ===== src/Tests/Handles.antt =====
-- Connections of the SQLite3, FreeTDS and Ingres drivers at concrete inputs.
use libdbi_drivers.Prelude.{
  ℕ, Bytes, Option, true, false, none, some, [], ◌∷◌, ◌≡◌, ◌+◌, ◌==◌, if◌then◌else◌, refl, codes,
}
use libdbi_drivers.CString.{equal}
use libdbi_drivers.Prelude.Faults.{Ensures}
use libdbi_drivers.Prelude.Int.{pos, negsuc}
use libdbi_drivers.Freetds.Connection.{CtLib, Options, version_of}
use libdbi_drivers.Freetds.Connection.Released.{
  IsVersion, nothing_held, start, connect_and_disconnect, connect_and_disconnect-held,
}
use libdbi_drivers.Ingres.Query.{Status}
use libdbi_drivers.Ingres.Connection.{Api}
use libdbi_drivers.Ingres.Connection.Closed.{ingres_session-handles}
use libdbi_drivers.Sqlite3.Session.{opened, Sqlite, Conn}
use libdbi_drivers.Sqlite3.Session.Opened.{
  run, select_db, seq_last, ping, session, sqlite3_session-handles,
}

abbrev sample_sqlite : Sqlite
sample_sqlite = record {
  World = ℕ;
  open8 = λ path w. (opened w, w + 1);
  open16 = λ path w. (opened w, w + 1);
  close = λ h w. w;
  set_busy_timeout = λ h timeout w. w;
  get_table = λ h statement w. (true, w);
  last_insert_rowid = λ h w. 3;
}

abbrev unconnected : Conn sample_sqlite
unconnected = record {
  dbname = some (codes "one");
  dbdir = some (codes "/var/lib");
  encoding = none;
  sqlite3_timeout = negsuc 0;
  timeout = pos 5;
  connection = none;
  current_db = none;
  world = 0;
  handles = [];
}

sqlite3_session-handles_example :
    Ensures
      (λ a c. c.handles ≡ [])
      (session sample_sqlite
        (run (codes "SELECT 1") ∷ select_db (codes "two") ∷ seq_last ∷ ping ∷ [])
        unconnected)
sqlite3_session-handles_example =
    sqlite3_session-handles sample_sqlite (λ path w. (tt, tt))
      (run (codes "SELECT 1") ∷ select_db (codes "two") ∷ seq_last ∷ ping ∷ []) unconnected
      (codes "one") refl refl (b'/', codes "var/lib", refl)

-- A library that answers every call but the last one of `dbd_connect`.
abbrev sample_ct : CtLib
sample_ct = record {
  World = ℕ;
  ctx_alloc = λ w. (true, w);
  init = λ w. (true, w);
  con_alloc = λ w. (true, w);
  cmd_alloc = λ w. (true, w);
  set_username = λ s w. (true, w);
  set_password = λ s w. (true, w);
  set_version = λ v w. (true, w);
  set_port = λ z w. (true, w);
  connect = λ host w. (false, w);
  cancel = λ w. (true, w);
  close = λ w. w;
  strtol = λ s. pos 1433;
}

abbrev login_options : Options
login_options = record {
  username = some (codes "sa");
  password = some (codes "secret");
  freetds_version = some (codes "4.95");
  port = some (codes "1433");
  host = some (codes "db1");
}

login_options-IsVersion : IsVersion login_options.freetds_version
unfolding version_of
login_options-IsVersion e = cc

connect_and_disconnect-held_example :
    Ensures
      (λ a c. c.held ≡ nothing_held)
      (connect_and_disconnect sample_ct login_options (start sample_ct 0))
connect_and_disconnect-held_example =
    connect_and_disconnect-held sample_ct (λ w. refl) login_options 0 login_options-IsVersion

-- An API that gives a handle for the first option, and with every second connection an error.
abbrev sample_api : Api
sample_api = record {
  World = ℕ;
  set_segment_len = λ z w. w;
  set_param = λ handle id value w. (some w, w + 1);
  connect = λ handle target w. (((if w == 2 then Status.error else Status.success), some w), w + 1);
  set_autocommit = λ handle tran w. ((Status.success, some 1), w);
  disconnect = λ h w. w;
  atoi = λ s. pos 1;
}

abbrev only_timezone : Bytes → Option Bytes
only_timezone name = if equal name (codes "ingres_timezone") then some (codes "UTC") else none

ingres_session-handles_example :
    Ensures
      (λ a c. (c.connection ≡ none) × (c.handles ≡ 9 ∷ []))
      (libdbi_drivers.Ingres.Connection.Closed.session sample_api only_timezone
        (codes "one" ∷ codes "two" ∷ [])
        (record { connection = none; world = 0; handles = 9 ∷ [] }))
ingres_session-handles_example =
    ingres_session-handles sample_api only_timezone (9 ∷ []) (codes "one" ∷ codes "two" ∷ [])
      (record { connection = none; world = 0; handles = 9 ∷ [] }) refl
