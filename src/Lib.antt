-- ===== src/Lib.antt =====
-- The FDM Monster server (src/ of the repository): a TypeScript server for a farm of 3D printers.
--
-- The parts that are modelled, by file; paths are from the repository's root.
-- - Base: shared names, lists with JavaScript's array methods, dictionaries, and programs as functions
--   from a state to a result and the state they leave (Base/Results, with the exceptions of
--   src/exceptions).
-- - KeyDiff: src/utils/cache/key-diff.cache.ts, the store with marks under every cache of the state.
--   KeyDiff/Keys has the keys, KeyDiff/Calls the calls that subclasses make, KeyDiff/Replica the
--   reader that applies a report.
-- - Orm: src/services/orm/base.service.ts over a typeorm repository, which is a record of operations
--   and laws; Orm/Table is a repository in memory.
-- - Floors: src/services/orm/floor.service.ts and floor-position.service.ts.
-- - Auth: src/services/orm/refresh-token.service.ts; Auth/Service is
--   src/services/authentication/auth.service.ts, Auth/Middleware src/middleware/authenticate.ts.
-- - Roles: src/services/orm/role.service.ts and permission.service.ts; Roles/Constants is
--   src/constants/authorization.constants.ts, Roles/Middleware the permission middleware.
-- - Tasks: src/services/core/task-manager.service.ts.
-- - Sockets: src/shared/websocket.adapter.ts and
--   src/services/octoprint/octoprint-websocket.adapter.ts, of which Sockets/Session has the set-up of a
--   session and the handlers of the socket's events.
-- - SocketStore: src/state/printer-socket.store.ts and src/tasks/printer-websocket-restore.task.ts over
--   an interface to the adapters, which SocketStore/Octoprint fills.
-- - Uploads: src/state/file-upload-tracker.cache.ts.
-- - Files: src/state/file.cache.ts and src/state/printer-files.store.ts.
-- - FloorStore: src/state/floor.store.ts, the key diff cache of floors over the floor service.
-- - Users: src/services/orm/user.service.ts and user-role.service.ts.
-- - Settings: src/entities/settings.entity.ts and its defaults; Settings/Service is
--   src/services/orm/settings.service.ts, Settings/Store src/state/settings.store.ts over it.
-- - Printers: src/state/printer.cache.ts, whose handlers hear the events of Printers/Service,
--   src/services/orm/printer.service.ts, after them the store of sockets, an interface that
--   Printers/Sockets fills; Printers/Batches is src/services/core/batch-call.service.ts.
-- - Completions: src/services/mongoose/print-completion.shared.ts, the statistics of
--   src/services/orm/print-completion.service.ts, and src/utils/array.util.ts.
-- - Middleware: src/middleware/database.ts, global.middleware.ts and exception.filter.ts, with the middleware of Auth
--   and Roles the way of a request to its handler.
-- - PrinterEvents: src/state/printer-events.cache.ts, whose cache holds references to objects that the
--   handlers of messages change.
-- - Groups: src/services/orm/printer-group.service.ts.
-- - Rpc: src/shared/websocket-rpc-extended.adapter.ts.
--
-- Conventions. A method that changes an object is a program over a record of the object's fields;
-- `throw` leaves the changes made so far. Time (`Date.now()`), drawn tokens and the answers of other
-- systems are arguments. A promise that nothing awaits is run at once, which is what happens to an
-- async body without a wait. Ids and counts are natural numbers and do not overflow. Text is the
-- native String. No loop of the modelled code needs fuel but the printing of a
-- number as text, where the number itself is enough.
--
-- Not modelled: request parsing and HTTP transport, logging, the databases themselves (typeorm is a
-- parameter with laws, Mongo is left out), the clients of OctoPrint and Moonraker and the socket
-- adapter of the latter, the import and export of YAML, and the parts that only map data.
pub mod Auth
pub mod Base
pub mod Completions
pub mod Files
pub mod FloorStore
pub mod Floors
pub mod Groups
pub mod KeyDiff
pub mod Middleware
pub mod Orm
pub mod PrinterEvents
pub mod Printers
pub mod Roles
pub mod Rpc
pub mod Settings
pub mod SocketStore
pub mod Sockets
pub mod Tasks
pub mod Uploads
pub mod Users
