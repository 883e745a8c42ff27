-- ===== src/Lib.antt =====
-- LoRaDB-UI: its backend (LoRaDB-UI/backend/src) keeps LoRaDB servers, their credentials and
-- their dashboards in a SQLite file, gives sessions to those who know a server's password, and passes
-- requests on to the server of a session; its frontend (LoRaDB-UI/frontend/src) shows the frames of devices.
-- This library models what the handlers do to that state, and the frontend's own calculations.
--
-- Parts, and how they interact:
--   Db, Db/WellFormed     db/database.ts: the rows of the three tables, the AUTOINCREMENT sequences, and
--                         what the constraints of the schema promise (`IsWellFormed`).
--   Table, Table/*        the SQL that the repositories use: SELECT, COUNT, INSERT, UPDATE, DELETE and
--                         ORDER BY over lists of rows, with their laws.
--   Servers               db/repositories/serverRepository.ts; Servers/Constraints and Servers/Deletion
--                         say that its statements keep the constraints.
--   Servers/Validation,   routes/servers.ts: the checks on names and hosts, and the handlers that create,
--   Servers/Routes        list, read, rename and delete servers; Servers/Creation, Servers/Renaming and
--                         Servers/Removal are about them. Servers/Connection is the test
--                         of a connection.
--   Passwords, Config     utils/password.ts and config/env.ts.
--   Crypto                what is taken from node's crypto, bcrypt and jsonwebtoken: a record of
--                         functions with laws; Crypto/Sample is an instance that keeps the laws.
--   Encryption/Codec,     utils/encryption.ts: the encryption of API keys, and the cache of decrypted
--   Encryption/Cache      ones, an association list in the order in which a Map is iterated.
--   Lockout               db/repositories/authRepository.ts: failed attempts and the lockout.
--   Auth                  POST /:id/authenticate of routes/servers.ts. Auth/Attempts and Auth/Steps treat
--                         requests one after another, Auth/Overlap requests that overlap.
--   Session               middleware/masterAuth.ts, middleware/serverContext.ts and routes/auth.ts: the
--                         tokens and who takes them. Session/Master is about a master token
--                         at the proxy and the dashboards.
--   Proxy                 routes/proxy.ts: the calls to the server of a session; Proxy/Granted says which
--                         client a request gets, Proxy/Calls which calls are made with it,
--                         Proxy/DevEui what isValidDevEUI accepts.
--   Dashboards            db/repositories/dashboardRepository.ts; Dashboards/Routes and
--                         Dashboards/Router are routes/dashboards.ts.
--   Backup                db/repositories/backupRepository.ts: export, checks and import of servers;
--                         Backup/Boards the same of dashboards, Backup/Files the backup files,
--                         Backup/Routes the handlers of routes/backup.ts and what
--                         utils/backupScheduler.ts writes. Backup/Restore is about an export that is
--                         imported.
--   DeviceTypes           utils/deviceTypeLoader.ts: the checks, the import and the index;
--                         DeviceTypes/Export is the export.
--   History               the statements of all repositories, one after another.
--   Frontend/Layout       LoRaDB-UI/frontend/src/hooks/useDashboardLayout.ts: the layout and its actions.
--   Frontend/Query        frontend/src/utils/queryBuilder.ts: the text of a query, and its checks.
--   Frontend/Select       frontend/src/utils/queryParser.ts: the fields of a query, the value at a path.
--   Frontend/Kpi,         frontend/src/utils/kpiCalculations.ts: airtime, spreading factors, energy.
--   Frontend/Frames
--   Frontend/WidgetData   frontend/src/utils/widgetDataProcessor.ts: what a widget shows.
--   Frontend/Storage      frontend/src/utils/dashboardStorage.ts and backupUtils.ts: the browser's storage.
--   Text, Json, Http      JavaScript's strings, JSON values, and the answers of a handler.
--   Samples, */Tests      concrete values, and the theorems applied to them.
--
-- A handler is a function from the request and the state to the answer and the new state. A handler
-- with an `await` between its reads and its writes is two functions, one before and one after it
-- (`create_check` and `create_commit`, `authenticate_check` and `authenticate_finish`), so that what
-- other requests do in between is a change of the database from the one to the other. A statement that
-- throws is a value of `Result`. Times are parameters: `now` is `Date.now()` in milliseconds, or the
-- text of `toISOString()` where the source stores it. Where a dashboard is created and then
-- marked as the default, `now` and `marked` are the two readings of the clock; an import of a backup has
-- one for all. Random bytes are parameters as well.
--
-- Fuel: `decimal n` runs on `suc n`, and n has fewer digits than that; the loop of an import that looks
-- for a free name runs on one more than the number of servers, and `server_name-free` shows that it is
-- enough.
--
-- Bounds: numbers are natural; the source's are doubles, which agree below 2^53. An airtime is exact here,
-- in microseconds, where the source rounds to doubles; the doubles in which energies are added are a
-- parameter. A field of the body of a request to routes/servers.ts, routes/auth.ts or routes/dashboards.ts is
-- absent or has the type that the source expects: with a field of another type some of these handlers throw
-- and answer 500, and such requests are not modelled.
--
-- Not modelled: the Rust database LoRaDB and the Python manager, which are programs of their own; the
-- React components and contexts; the rate limiters and CORS, which configure packages;
-- the schedule of backups and the permissions of their files; the averages,
-- percentages and formats of the frontend, which are doubles and locale; logging, and the opening, copying
-- and migration of the database file.
pub mod Common
pub mod Table
pub mod Json
pub mod Db
pub mod Servers
pub mod Text
pub mod Http
pub mod Crypto
pub mod Passwords
pub mod Config
pub mod Encryption
pub mod Lockout
pub mod Auth
pub mod Session
pub mod Backup
pub mod DeviceTypes
pub mod History
pub mod Frontend
pub mod Proxy
pub mod Dashboards
pub mod Samples
