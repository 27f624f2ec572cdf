-- ===== src/Lib.antt =====
-- libdbi-drivers: the database drivers of libdbi, one directory of drivers/ for each server. A driver
-- is a plugin: libdbi calls its dbd_* functions, which call the server's client library and
-- hand back results, fields and rows in libdbi's structures. The drivers do not call each other; they
-- have parts in common because they were copied from one another.
--
-- The parts of a driver that compute something of their own, and where they are modelled:
--   - Quoting of strings and binary data for a statement (dbd_quote_string, dbd_quote_binary and
--     their helpers): Sqlite3/Quote, Sqlite/Quote, Oracle/Quote, Ingres/Quote, Firebird/Quote,
--     Freetds/Quote, Msql/Quote. Sql.antt says how a server reads a literal. Sql/Binary has
--     dbd_quote_binary of all drivers but the Ingres driver, six of them copies of one function.
--   - Encoding names (dbd_encoding_to_iana, dbd_encoding_from_iana and the tables): Encoding.antt has the
--     loops; Pgsql/Encoding, Mysql/Encoding, Firebird/Encoding, Freetds/Encoding and Oracle/Encoding
--     the tables.
--   - The types of the fields of a result (_translate_*_type, ingres_classify_field,
--     _get_field_info): Types.antt in the folder of each driver.
--   - The rows of a result (_get_row_data, ingres_field and ingres_results): Rows.antt in Sqlite3, Sqlite,
--     Pgsql, Mysql, Msql, Firebird, Ingres, Oracle and Freetds; Dbi/Numbers has the conversions that several
--     share, and Dbi.antt what they take from libdbi.
--   - Dates: Ingres/Date (ingres_date) with Ingres/Months (in_word_set of
--     drivers/ingres/months.gperf.c), and Oracle/Rows (_oradate_to_time_t).
--   - SQLite knows no types of columns, so the drivers look for them (find_result_field_types). In
--     drivers/sqlite3/dbd_sqlite3.c: Sqlite3/Select follows the words of the statement to what a
--     name is an alias of, Sqlite3/Tables finds the statement's tables (getTables), Sqlite3/Columns
--     looks the column up in them (get_field_type), and Sqlite3/Declared classifies its declaration.
--     In drivers/sqlite/dbd_sqlite.c: Sqlite/Columns finds the table of a field, Sqlite/CreateTable
--     reads its CREATE TABLE statement (get_field_type), and Sqlite/Declared classifies the type.
--   - Listing database files (dbd_list_dbs): Sqlite3/Databases and Sqlite/Databases, with the pattern
--     of Sqlite3/Wildcard (wild_case_compare).
--   - Connections: Pgsql/Conninfo has the connection string of _dbd_real_connect, and Pgsql/Connection
--     the operations on a connection (connecting, dbd_select_db, dbd_query, dbd_get_seq_last,
--     dbd_get_seq_next, dbd_ping, dbd_disconnect) as actions on a state that keeps the handles that
--     are open; Mysql/Connection, Oracle/Session and Firebird/Session do the same for the drivers of
--     drivers/mysql, drivers/oracle and drivers/firebird, and Sqlite3/Session, Freetds/Connection
--     and Ingres/Connection for those of drivers/sqlite3, drivers/freetds and drivers/ingres.
--     Mysql/Client has the flags of a connection, Sqlite3/Connect the path and the timeout,
--     Firebird/Attach the parameter block, and Mysql/Charset the encoding of a connection.
--   - Statements: Firebird/Statement has dbd_query with the transaction and the memory of a result, and
--     Firebird/Layout where the columns of a row stand in it; Ingres/Query has ingres_query and the
--     loops of ingres_results; Sqlite3/Query has dbd_query and dbd_list_tables of the SQLite3 driver.
--   - The results of a command of FreeTDS (dbd_query of drivers/freetds/dbd_freetds.c): Freetds/Query, a
--     loop over the events that the CT library reports.
--   - The version number in the server's text (dbd_get_engine_version of drivers/pgsql/dbd_pgsql.c,
--     drivers/freetds/dbd_freetds.c and drivers/firebird/dbd_firebird.c): Version.antt of each.
--
-- C strings are lists of bytes without the terminating zero, and a pointer into one is the list from
-- there on; CString.antt has the functions of the C library. A read or write that C leaves
-- undefined is `none` or a constructor of its own. The integers that are read are cut to the width of
-- the member that they are stored in (Prelude/Int); `atol` has no bound, so that a number of more
-- than 64 bits keeps its low bits. A plain char is taken as signed (wild_case_compare).
--
-- Prelude/Faults is the state monad of the connections, in which `none` is a use of memory or of a handle
-- that is not there, and Prelude/Opened the lists of open handles.
--
-- Every loop is structural recursion but the outer loop of getTables of the SQLite3 driver, which is on
-- fuel, the length of the statement and one, as each pass takes a character off what is left; the
-- loop of get_field_type of the SQLite driver, on the length of the columns and one, as each call of
-- strtok takes a character off; and the loop over the columns of a row of the Ingres driver, on a number
-- above theirs, as each pass takes one column at least.
--
-- Parameters: libdbi's _dbd_parse_datetime, _dbd_decode_binary, _isolate_attrib (the record Libdbi
-- of Dbi.antt; the laws of the last are IsolatesAttribs), _dbd_escape_chars (Msql/Quote, and with
-- its law Pgsql/Conninfo), strtod, timegm, mktime and the conversion %d, PQunescapeBytea
-- (Pgsql/Rows), libpq (the record Libpq of Pgsql/Connection), libmysqlclient (Mysql of
-- Mysql/Client), SQLite (Sqlite of Sqlite3/Session), the CT library (CtLib of Freetds/Connection),
-- OCI (Oci of Oracle/Session), Firebird's library (Isc of Firebird/Statement) with the build's DBDIR and
-- PATH_MAX (Options of Firebird/Statement), the Ingres API (IiApi of Ingres/Query, with whether there
-- is memory for the buffers of a row, and Api of Ingres/Connection), cs_convert (Freetds/Rows), libdbi's
-- _dbd_encode_binary, PQescapeBytea and mysql_real_escape_string (Sql/Binary), the member of the
-- array of rows that _dbd_row_finalize writes (Ingres/Query), sqlite3_get_table (Sqlite3/Columns),
-- the answers of sqlite_get_table_printf (Sqlite/Columns), IIapi_convertData (Ingres/Rows) and the
-- answers of MySQL's server (Mysql/Charset). The codes of the servers' types are constructors, since
-- their headers are not part of the repository.
--
-- Not modelled: the connections of the other drivers and error texts, which are sequences of calls of the
-- client libraries; the listings of tables that are one query each; failures of allocation, but
-- for the buffers of ingres_results and the statements of OCI; a column of the FreeTDS driver that is
-- NULL; the limits of the arrays for identifiers in the SQLite3 driver (MAX_IDENT_LENGTH) and of its
-- paths.
mod Prelude
mod CString
pub mod Dbi
pub mod Encoding
pub mod Pgsql
pub mod Mysql
pub mod Sql
pub mod Sqlite3
pub mod Ingres
pub mod Firebird
pub mod Freetds
pub mod Msql
pub mod Oracle
pub mod Sqlite
mod Tests
