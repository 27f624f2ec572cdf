-- ===== src/Tests/Sessions.antt =====
-- Connections of the Oracle and MySQL drivers, and statements of the Ingres driver, at concrete inputs.
use libdbi_drivers.Prelude.{
  ℕ, Bool, true, false, none, some, List, [], ◌∷◌, ◌≡◌, ◌+◌, ◌-◌, refl, arith, codes,
}
use libdbi_drivers.Prelude.Faults.{Ensures}
use libdbi_drivers.Prelude.Int.{pos, negsuc}
use libdbi_drivers.CString.{equal}
use libdbi_drivers.Ingres.Query.{IiApi, Started, Status, add_stmt, groups, fetch_all, ingres_query}
use libdbi_drivers.Ingres.Query.Closed.{kept, free_result, ingres_query-kept, ingres_query-closed}
use libdbi_drivers.Ingres.Query.Groups.{AreGroups, joined, groups-AreGroups}
use libdbi_drivers.Ingres.Query.Slots.{fetch_all-slots}
use libdbi_drivers.Mysql.Charset.{encoding_statements}
use libdbi_drivers.Mysql.Client.{Mysql}
use libdbi_drivers.Mysql.Connection.{dbd_connect}
use libdbi_drivers.Mysql.Connection.Handles.{NamesEncodings}
use libdbi_drivers.Mysql.Connection.Sessions.{
  query, select_db, seq_last, ping, session, mysql_session-opened,
}
use libdbi_drivers.Oracle.Session.{Oci, dbd_ping}
use libdbi_drivers.Oracle.Session.Counts.{Has, perform_all, perform_all-Has}

-- A server with statements of every kind, of no columns, that answers 1 to each query for a number.
abbrev sample_oci : Oci
sample_oci = record {
  World = ℕ;
  env_create = λ w. (true, w);
  alloc_err = λ w. (true, w);
  alloc_svc = λ w. (true, w);
  logon = λ username password sid w. (true, w + 1);
  logoff = λ w. w;
  alloc_stmt = λ w. (true, w);
  prepare = λ statement w. (true, w);
  is_select = λ w. (true, w);
  execute = λ w. (true, w);
  columns = λ w. ([], w);
  position = λ w. (10, w);
  prefetch = λ n w. w + n;
  value = λ query w. (pos 1, w);
  unsigned = λ z. elim z [ pos n ↦ n | negsuc n ↦ 18446744073709551615 - n ];
}

abbrev oracle_conn : Bool → libdbi_drivers.Oracle.Session.Conn sample_oci
oracle_conn is_connected = record {
  username = some (codes "scott");
  password = some (codes "tiger");
  sid = some (codes "orcl");
  prefetch_rows = pos 1;
  is_connected = is_connected;
  handles = record { envs = 1; errs = 1; svcs = 1; stmts = 0 };
  world = 0;
}

perform_all-Has_example :
    Ensures
      (λ a c. Has sample_oci 0 c)
      (perform_all sample_oci
        (libdbi_drivers.Oracle.Session.Counts.query (codes "SELECT 1 FROM dual")
          ∷ libdbi_drivers.Oracle.Session.Counts.seq_next (some (codes "s"))
          ∷ [])
        (oracle_conn true))
perform_all-Has_example =
    perform_all-Has sample_oci
      (libdbi_drivers.Oracle.Session.Counts.query (codes "SELECT 1 FROM dual")
        ∷ libdbi_drivers.Oracle.Session.Counts.seq_next (some (codes "s"))
        ∷ [])
      0 (oracle_conn true) (λ w. refl) (refl, refl)

abbrev sample_mysql : Mysql
sample_mysql = record {
  World = ℕ;
  init = λ w. (some w, w + 1);
  set_timeout = λ h timeout w. w;
  real_connect = λ h login w. (true, w);
  close = λ h w. w;
  error = λ h w. codes "error";
  errno = λ h w. 1;
  query = λ h statement w. (true, w);
  store_result = λ h w. (none, w);
  affected_rows = λ h w. 0;
  select_db = λ h db w. (true, w);
  insert_id = λ h w. 7;
  ping = λ h w. (true, w);
  ask = λ w statement. none;
}

abbrev mysql_conn : libdbi_drivers.Mysql.Connection.Conn sample_mysql
mysql_conn = record {
  host = none;
  username = some (codes "root");
  password = none;
  dbname = some (codes "test");
  encoding = some (codes "UTF-8");
  unix_socket = none;
  numeric = λ option. negsuc 0;
  connection = none;
  current_db = none;
  last_error = none;
  world = 0;
  opened = [];
}

encoding_named : NamesEncodings sample_mysql mysql_conn.encoding
unfolding encoding_statements equal
encoding_named w db e = cc

mysql_session-opened_example :
    Ensures
      (λ a c. c.opened ≡ [])
      (session sample_mysql
        (query (codes "SELECT 1") ∷ select_db (codes "two") ∷ seq_last ∷ ping ∷ [])
        mysql_conn)
mysql_session-opened_example =
    mysql_session-opened sample_mysql
      (query (codes "SELECT 1") ∷ select_db (codes "two") ∷ seq_last ∷ ping ∷ []) mysql_conn
      encoding_named (refl, refl)

groups-AreGroups_example :
    (gs : List (List Bool)) × (groups 5 (false ∷ false ∷ true ∷ false ∷ []) ≡ some gs)
    × AreGroups gs
    × (joined gs ≡ false ∷ false ∷ true ∷ false ∷ [])
groups-AreGroups_example = groups-AreGroups 5 (false ∷ false ∷ true ∷ false ∷ []) (omega arith)

fetch_all-slots_example : fetch_all (λ n. n + 1) 11 45 ≡ none
fetch_all-slots_example = fetch_all-slots (λ n. n + 1) (λ n. refl) 45

-- A server that starts a statement for each query, and answers it without a descriptor.
abbrev sample_ii : IiApi
sample_ii = record {
  World = ℕ;
  query =
      λ statement tran w. (record { status = Status.success; tran = some 1; stmt = some w }, w + 1);
  descriptor = λ stmt w. (Status.success, w);
  fields = λ stmt w. [];
  query_info = λ stmt w. (Status.success, w);
  row_count = λ stmt w. some 3;
  alloc_buffers = λ fields w. (true, w);
  rows = λ stmt w. (0, w);
  close = λ h w. w;
  commit = λ tran w. (Status.success, w);
  rollback = λ tran w. (Status.success, w);
}

abbrev ingres_conn : libdbi_drivers.Ingres.Query.Conn sample_ii
ingres_conn = record { is_connected = true; curr_tran = none; stmts = 9 ∷ []; world = 0 }

ingres_query-kept_example :
    Ensures
      (λ result c.
        (c.stmts ≡ add_stmt sample_ii (kept sample_ii result) (9 ∷ []))
        × Ensures (λ a c'. c'.stmts ≡ 9 ∷ []) (free_result sample_ii result c))
      (ingres_query sample_ii (codes "DELETE FROM t") ingres_conn)
ingres_query-kept_example = ingres_query-kept sample_ii (codes "DELETE FROM t") ingres_conn

ingres_query-closed_example :
    Ensures
      (λ result c. c.stmts ≡ 9 ∷ [])
      (ingres_query sample_ii (codes "DELETE FROM t") ingres_conn)
ingres_query-closed_example =
    ingres_query-closed sample_ii (codes "DELETE FROM t") ingres_conn (λ fields w. refl)
