-- ===== src/Lib.antt =====
-- The SQLite driver of ADBC, c/driver/sqlite, and the driver manager, c/driver_manager.
--
-- The driver turns the rows of a prepared SQLite statement into a stream of Arrow batches and binds
-- the rows of an Arrow stream to the statement's parameters. Its parts, and the files that model
-- them:
--
-- - Adbc: the status codes of adbc.h; a C function's result as `done`, `failed` or `fault`, the last
--   for an access that C leaves undefined. CHECK_NA, RAISE_ADBC and early returns are `>>=`.
-- - Platform and Engine: what the driver calls and this repository's C code does not define, as
--   records that the definitions take: nanoarrow's allocation (ArrowBufferReserve and the like), the
--   C library's floating point, and one function for each sqlite3_* call on a world that the engine
--   alone knows. IsPlatform and Allocates are what the proofs assume of them. Each has a child module
--   Toy with a concrete instance, on which the tests run.
-- - Memory: struct ArrowBuffer and ArrowBitmap as typed cells with a capacity; a write past the
--   capacity, and a read at another type, is a fault.
-- - Decimal: what snprintf writes for PRId64.
-- - Infer, statement_reader.c: StatementReaderInitializeInfer is `initialize_infer`, the upcasts have
--   their C names, StatementReaderInferOneValue is `infer_one_value`. Infer.Logical is the
--   specification (a column as optional values of one type, and how a value widens it),
--   Infer.Refines relates buffers to it, Infer.Decode reads buffers as an Arrow consumer does.
-- - Export, statement_reader.c: AdbcSqliteExportReader is `export_reader`, its loop `export_loop`,
--   StatementReaderInferFinalize `infer_finalize`.
-- - Stream and Reader, statement_reader.c: struct StatementReader, StatementReaderGetOneValue,
--   StatementReaderGetNext (`get_next`) and StatementReaderRelease.
-- - Params and Binder, statement_reader.c: struct AdbcSqliteBinder, AdbcSqliteBinderSet,
--   AdbcSqliteBinderSetArrayStream, AdbcSqliteBinderBindNext (`bind_next`, its batch loop `load`) and
--   AdbcSqliteBinderRelease.
--
-- - Library, sqlite.c: SQLite as databases and connections call it, as a parameter, and the result of
--   a call that may meet freed memory or not end.
-- - Database and Connection, sqlite.c: SqliteDatabase* and OpenDatabase; ExecuteQuery,
--   SqliteConnectionNew, Init, Release, SetOption, Commit and Rollback.
-- - StringBuilder, utils.c, and Ingest, sqlite.c: the texts that SqliteStatementInitIngest builds, and
--   the loop of SqliteStatementExecuteIngest (`ingest_rows`). The calls around them are in Execute.
-- - Statement, sqlite.c: SqliteStatementNew, Release, Prepare, SetSqlQuery, SetOption, Bind and
--   BindStream.
-- - Update, sqlite.c: the part of SqliteStatementExecuteQuery for a NULL `out` (`execute_update`).
-- - Execute, sqlite.c: SqliteStatementExecuteQuery (`statement_execute_query`), which combines the
--   statement, the ingestion, the update and the export on one library, and
--   SqliteStatementGetParameterSchema. Execute.Loops and Execute.Ends are about
--   the end of its loops.
-- - Metadata, sqlite.c: SqliteConnectionGetObjects, as the calls of nanoarrow that it makes: the columns
--   of a table (`get_columns`), its constraints (Metadata.Constraints), and the tables
--   (Metadata.Tables, `get_objects`). Its loops take a number of rounds.
-- - Info, sqlite.c: SqliteConnectionGetInfo (`get_info`), from the schema and the arrays that nanoarrow
--   makes for it. Info.Answers says what it answers to which code.
-- - OneBatch, utils.c: BatchToArrayStream and SingleBatchArrayStream.
-- - TableSchema, sqlite.c: SqliteConnectionGetTableSchema, with StatementReaderGetSchema.
--
-- The driver manager loads a driver by its name or its init function, keeps what an application sets
-- until it has a driver, and passes calls on. Its parts are under Manager, all of
-- adbc_driver_manager.cc:
--
-- - Manager.System: the dynamic loader and the driver's functions, as a parameter. Of an object that the
--   driver keeps, the model sees only whether private_data is NULL. Manager.Toy is an instance.
-- - Manager.FileName: the names that AdbcLoadDriver tries (`open_driver`), with lib and .so.
-- - Manager.Table: the functions of struct AdbcDriver, and AdbcLoadDriverFromInitFunc as the list of its
--   CHECK_REQUIRED and FILL_DEFAULT lines (`load_lines`). A pointer is NULL, the driver's or the stub.
-- - Manager.Options: the std::unordered_map of options as an association list. The order in which a loop
--   goes through it is a parameter.
-- - Manager.Database: AdbcDatabaseNew, SetOption, Init and Release, SetInitFunc, and AdbcLoadDriver
--   (`load_by_name`). private_data is NULL, the manager's TempDatabase, or the driver's, and taking the
--   last for the second is a fault, as is a call of NULL. Its child modules have the phases of a
--   database (Phases, Safe, Reached), what is kept (Configure) and what the driver sees (Replay).
-- - Manager.Connection: AdbcConnectionNew, SetOption, Init and Release; its phases are in Safe.
-- - Manager.Forward: the other AdbcConnection* functions and AdbcStatement*. Their arguments are only
--   passed on, so they are left out.
-- - Manager.Session: a database, a connection and a statement together. A driver is a value there, and
--   Shares says that the one in use is the database's, which is deleted with it.
--
-- Pointers and loops. Locals of a loop are a record that its body maps to `again` or `leave`. The
-- row loops of the reader count down from the batch size, since every turn that goes on adds a row.
-- The retry loop around snprintf has 32 rounds, one for each doubling of an unsigned int; running out
-- is a fault, which `infer_one_value` is shown never to be.
-- The loop that fetches parameters is structural in the list of what the caller's stream returns.
-- The loop of ExecuteQuery does not end on a code that is neither SQLITE_DONE nor SQLITE_ERROR, so it
-- takes a number of rounds, and one is enough for a statement that ends in one step.
-- The loops of bulk ingestion and of an update take a number of turns, and one more than there are
-- rows is enough.
--
-- Not modelled: the Windows branch of AdbcLoadDriver, the schemas of metadata batches and
-- GetTableTypes, whose batch is constant, the text of error messages, and the drivers and bindings
-- in other directories.
pub mod Base
pub mod Adbc
pub mod Platform
pub mod Memory
pub mod Decimal
pub mod Info
pub mod Infer
pub mod Engine
pub mod Params
pub mod Binder
pub mod Stream
pub mod Export
pub mod Reader
pub mod Library
pub mod Database
pub mod Connection
pub mod StringBuilder
pub mod Ingest
pub mod Statement
pub mod Update
pub mod OneBatch
pub mod TableSchema
pub mod Execute
pub mod Metadata
pub mod Manager
