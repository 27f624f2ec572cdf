-- ===== src/Tests/Firebird.antt =====
-- Connections and statements of the Firebird driver at concrete inputs.
use libdbi_drivers.Prelude.{ℕ, true, false, none, some, List, [], ◌∷◌, ◌≡◌, ◌+◌, refl, arith, codes}
use libdbi_drivers.Prelude.Faults.{Ensures}
use libdbi_drivers.Firebird.Encoding.{dbd_encoding_from_iana}
use libdbi_drivers.Firebird.Layout.{Column, Place}
use libdbi_drivers.Firebird.Statement.{
  stmt_other, Isc, unconnected, connected, Options, Conn, statement_of, generator_query, dbd_query,
  fetch, return_generator_value,
}
use libdbi_drivers.Firebird.Statement.Dangling.{return_generator_value-fault}
use libdbi_drivers.Firebird.Session.{session, dbd_ping}
use libdbi_drivers.Firebird.Session.Balanced.{IsOver, Fits, session-IsOver}
use libdbi_drivers.Firebird.Session.Ping.{Answers, dbd_ping-zero}
use libdbi_drivers.Firebird.Types.{sql_varying, sql_long}

abbrev columns : List Column
columns =
    record { name = codes "A"; type = sql_varying; sqllen = 10 }
    ∷ record { name = codes "B"; type = sql_long; sqllen = 4 }
    ∷ []

abbrev first_place : Place
first_place = record { sqldata = 0; sqlind = 14 }

abbrev second_place : Place
second_place = record { sqldata = 16; sqlind = 20 }

abbrev long_columns : List Column
long_columns =
    record { name = codes "A"; type = sql_varying; sqllen = 30000 }
    ∷ record { name = codes "B"; type = sql_varying; sqllen = 3000 }
    ∷ []

-- A server that gives out a new handle for each statement, describes two columns, has no rows, and
-- does not answer to the question that `dbd_ping` asks.
abbrev sample_isc : Isc
sample_isc = record {
  World = ℕ;
  allocate = λ w. (some w, w + 1);
  prepare = λ trans h statement w. (some columns, w);
  sql_info = λ h w. (some stmt_other, w);
  describe = λ h w. (some columns, w);
  execute = λ trans h w. (true, w);
  fetch = λ h w. (none, w);
  drop = λ h w. w;
  commit = λ trans w. (true, w);
  start = λ w. (true, w);
  dpb_codes = record {
    version1 = 1;
    num_buffers = 5;
    user_name = 28;
    password = 29;
    lc_ctype = 48;
  };
  attach = λ name block w. (true, w);
  detach = λ w. w;
  database_info = λ w. (false, w);
  print_int = λ n. codes "1";
}

abbrev options : Options
options = record {
  username = some (codes "sysdba");
  password = some (codes "masterkey");
  encoding = none;
  host = none;
  dbdir = none;
  default_dbdir = codes "/var/lib/firebird";
  path_max = 4096;
}

options-Fits : Fits options (codes "employee")
unfolding dbd_encoding_from_iana
options-Fits =
    ((codes "sysdba", codes "masterkey", refl, refl, omega arith), (λ e. cc), omega arith)

abbrev start : Conn sample_isc
start = record {
  connection = unconnected;
  options = options;
  dbname = some (codes "employee");
  statements = [];
  world = 0;
}

abbrev there : Conn sample_isc
there = record {
  connection = connected true;
  options = options;
  dbname = some (codes "employee");
  statements = [];
  world = 0;
}

session-IsOver_example :
    Ensures
      (λ a c. IsOver sample_isc c)
      (session sample_isc (codes "SELECT A, B FROM T" ∷ codes "SELECT B FROM T" ∷ []) start)
session-IsOver_example =
    session-IsOver sample_isc (λ name block w. refl) (λ h w e. cc)
      (codes "SELECT A, B FROM T" ∷ codes "SELECT B FROM T" ∷ []) start
      (refl, refl, (codes "employee", refl, options-Fits))

dbd_ping-zero_example : Ensures (Answers sample_isc false) (dbd_ping sample_isc there)
dbd_ping-zero_example =
    dbd_ping-zero sample_isc (λ name block w. refl) there true (codes "employee") refl refl
      options-Fits

abbrev asked : Conn sample_isc
asked = record {
  connection = connected true;
  options = options;
  dbname = some (codes "employee");
  statements = 0 ∷ [];
  world = 1;
}

query_run :
    dbd_query sample_isc (codes "SELECT A, B FROM T") there
    ≡ some (some (statement_of 0 columns), asked)
unfolding dbd_query
query_run = refl

generator_query_run :
    dbd_query sample_isc (generator_query sample_isc (codes "SEQ") 1) there
    ≡ some (some (statement_of 0 columns), asked)
unfolding dbd_query
generator_query_run = refl

fetch_run : fetch sample_isc (statement_of 0 columns) asked ≡ some (none, asked)
unfolding fetch
fetch_run = refl

return_generator_value-fault_example :
    return_generator_value sample_isc (codes "SEQ") 1 there ≡ some (0, record there { world = 1 })
return_generator_value-fault_example =
    return_generator_value-fault sample_isc (λ h w e. cc) (codes "SEQ") 1 [] there asked
      (statement_of 0 columns) ((true, refl), refl) generator_query_run
