-- ===== src/Lib.antt =====
-- Facenox desktop: the logic of the cloud synchronisation of the attendance application, and parts
-- of the logic behind its views.
--
-- The application keeps attendance on the computer, in a local service that it talks to over HTTP,
-- and synchronises it with the Cloud. app/src/electron/managers/BackgroundSyncManager.ts runs a
-- synchronisation: it exports the local changes, packs them into bounded requests
-- (app/src/electron/managers/syncChunks.ts), sends those that the Cloud has not accepted yet, and
-- then downloads the directory with the Cloud's policy.
--
-- Sync/Chunks.antt: `buildSyncChunks`. A row is known by its key, its JSON text, its fingerprint
-- and its version; the text around the arrays is the `Envelope`. The `while` loop over a kind is
-- `fill`, the `for` loop over the kinds `pack`, the `do … while` loop `pack_all`. Its fuel is one
-- more than the number of rows, which is enough, since each chunk but the last takes a row.
-- Sync/Policy.antt: `applyRemotePolicy`, `persistLivenessRequirement`, `restoreCachedPolicy`.
-- Sync/Upload.antt: the loop of `performSync` over the chunks of the pending upload. The object in
-- memory and its copy in the persistent store are two fields of the state.
-- Sync/Pull.antt: `pullMetadata`. The `while` loop counts down the 100 pages of `MAX_PAGES`.
-- Sync/Session.antt: `performSync` from the test of the connection to the result, which joins the
-- three. The keys of the persistent store that it uses are the record `Store`.
-- Sync/Gate.antt: the flags of the manager; an event is a handler up to its next `await`.
-- Sync/Commands.antt: `executeCommand` and the loop of `pollCommands`, with the points where the
-- process may die.
-- Overlay.antt: the hints at the faces of the live view
-- (app/src/components/main/utils/overlayGuidance.ts), which does not talk to the others.
-- DisplayNames.antt: the names under which persons are shown (app/src/utils/displayNameUtils.ts).
-- ScanReadiness.antt: whether scanning may start
-- (app/src/components/main/utils/scanReadiness.ts).
-- CloudState.antt: the shared snapshot of the Cloud configuration
-- (app/src/services/cloudSyncState.ts).
-- AutoExport.antt: the daily report (app/src/electron/managers/AutoExportManager.ts): its schedule,
-- the rows of a group, the files with their CSV text, and the escaping of XML. A run that waits is the field
-- `running`; its end is an event.
-- Pairing.antt: connecting the computer to a location in the Cloud and disconnecting it
-- (app/src/electron/ipc/syncHandlers.ts); the handlers are in Pairing/Handlers.antt. The
-- synchronisation that follows a pairing is Sync/Session.antt.
-- Backup.antt: the container of an encrypted backup (the same file).
-- BulkImport.antt: the checkpoint of an import of members
-- (app/src/components/group/modals/utils/bulkMemberImport.ts). A random UUID is drawn with each
-- input row.
-- BackendProcess.antt: the restart of the local service after a crash
--   (app/src/electron/backend/BackendProcessManager.ts), its start (Startup), the lines of its output
--   (Output) and its log (Log). The wait for its answer has fuel for one round more than reach the
--   hard ceiling.
-- ClockWarnings.antt: which warnings about the clock are shown
-- (app/src/services/clockWarnings.ts).
-- PersistentStore.antt: the settings file with two encrypted secrets and the key of the vault
--   (app/src/electron/persistentStore.ts): VaultKey, the key file that processes share, and Access,
--   the calls of the store with `store:reset`
--   (app/src/electron/ipc/storeHandlers.ts), of which a read that throws is `none` for Pairing's device
--   token.
-- UiStore.antt: the lock of the settings by a PIN (app/src/components/main/stores/uiStore.ts) and its
--   recovery key (app/src/utils/recoveryKey.ts).
-- WebSocket.antt: the connection to the detector (app/src/services/WebSocketService.ts) as a machine
--   of calls, socket events and timers (Events).
-- GroupStore.antt: the groups and members that the management of groups shows
--   (app/src/components/group/stores/groupStore.ts), with late answers (Events).
-- CameraStore.antt: the camera that is used (app/src/components/main/stores/cameraStore.ts).
-- Versions.antt: the comparison of versions (app/src/electron/updaterUtils.ts) and the check for
--   updates with its cache (Checks, app/src/electron/updater.ts).
-- MemberCache.antt: the member of a recognised person
--   (app/src/components/main/utils/memberCacheHelpers.ts), and whether two maps of answers are the same
--   (RecognitionMaps, app/src/components/main/utils/recognitionHelpers.ts).
-- JsMap.antt: JavaScript's `Map` and `Record` as association lists, shared by the components.
-- Base.antt: numbers, lists, options and keys, shared by all.
--
-- Each component has a module of its laws and a module Tests with runs on small inputs.
--
-- Numbers in a version are exact, as JavaScript has them up to 2 ^ 53.
-- The Cloud and the local service are seen through their answers, which are arguments. JSON texts,
-- ciphers, the schema validation and the clock are parameters, and error texts are left out. The
-- Python service, the views and the windows are not modelled, nor are timers but those of the
-- connection to the detector and of the log.
pub mod AutoExport
pub mod BackendProcess
pub mod Backup
pub mod Base
pub mod BulkImport
pub mod CameraStore
pub mod ClockWarnings
pub mod CloudState
pub mod DisplayNames
pub mod GroupStore
pub mod JsMap
pub mod MemberCache
pub mod Overlay
pub mod Pairing
pub mod PersistentStore
pub mod ScanReadiness
pub mod Sync
pub mod UiStore
pub mod Versions
pub mod WebSocket
