-- ===== src/Lib.antt =====
-- Verification library of the Star Sync backend, a NestJS server for people who write music together.
--
-- The program. Clients connect over WebSocket to the collaboration gateway (src/socket/sync.gateway.ts).
-- It keeps the rooms of the projects and the connections of the users, passes events on, keeps the
-- notes of a project in Redis, delivers shared projects or queues them, and asks the lock service
-- (src/socket/lock-queue.service.ts) who may edit an item. The REST services check a user's role by
-- the permission service (src/libs/services/permission.service.ts) and change the database; here, those
-- of the invitations to a project (src/project/project-invitation.service.ts), of the projects and
-- their collaborators (src/project/project.service.ts) and of the friends of a user
-- (src/friend/friend.service.ts), and of the comments on patterns
-- (src/project/pattern-comment.service.ts), which have the notification gateway
-- (src/socket/notification.gateway.ts) emit events. The versions of a project are tracked in memory and
-- in Redis (src/project/version-tracker.service.ts). Messages between users go through the chat gateway,
-- service and controller (src/socket/chat.*.ts). Users register and log in at src/auth, with tokens and
-- password hashes of src/libs/services. The latencies of the handlers are kept in a window
-- (src/libs/telemetry/latency-logger.service.ts).
--
-- The files.
--   Prelude, JsMap, JsSet, SetMap: shared names and tests, JavaScript's maps and sets as lists in the
--     order of insertion, and maps from a name to a set that is taken out when it is empty.
--   Json: the values of JSON with `undefined`, and truthiness, `||` and `??`.
--   LockQueue: the lock service. A method takes the clock and the state, and returns the new state with
--     its answer: acquire_lock for acquireLock, release_lock for releaseLock, and so on by the names of
--     the source. What stands before and after an await of Redis are definitions of their own
--     (acquire_check and acquire_install, release_start and process_queued), so that Race composes them
--     in another order. History has the calls and their sequences; Release and Acquire say what one
--     method does on every branch, Invariant, Sweep, Lease, Waiting and Ordering what all of them keep.
--   SyncGateway: the gateway's state and its ways to send. Relay, Rooms, Share, Notes and Locks have the
--     handlers (handle_undo for handleUndo), each returning the messages that it sends, in order; their
--     children have the theorems. Messages has the dispatch (handle_message, on_message) and the
--     histories of messages, closing connections and timers; Sound says what all of them keep.
--   RedisService: the service over Redis, whose client and whose array texts are parameters. A text that is
--     read may be no JSON or no array, and then the places that read it throw.
--   Effect, Database, Entities: methods that may throw after they have written, the interface of a
--     TypeORM repository with the laws that the services rely on, and the rows. Database.InMemory is a
--     repository for which the laws hold.
--   Permission, Invitation, Projects, Friends: the services. Rows, Lookups and Invariant, and Requests and
--     History, prove what a history of calls keeps; Guards and Pairs have what single operations do.
--     Projects.Snapshots has the snapshots that are stored in the database, and Restored what restoring
--     one leaves. Projects.Reads, Activities and Versions, Invitation.Listed and Friends.Listed have the
--     methods that answer lists and versions, and Friends.Removed what a removal leaves of a list.
--   VersionTracker: changes, snapshots and restoring; Numbers and History, Size and Restore prove what
--     holds of the numbers, of how many versions are kept, and of a snapshot that is restored.
--   PatternComments: the comments, and Members whom they go to; what they have the gateway emit is a list with the state.
--   NotificationGateway: the two maps of the gateway, subscribing and disconnecting; Notices has the
--     messages and to which sockets they go. Registered, Delivery and Verified prove that the maps
--     agree, whom a notice reaches, and what a token says of them.
--   ChatService, ChatGateway, ChatController: a message and its receipts, the handlers, which return the
--     calls of Socket.IO that they make, and the requests. Receipts, Invariant, Status and Pages prove
--     what holds of the receipts and of the pages of a history.
--   Auth, Jwt, PasswordHash: registering and logging in, tokens, and hashes. A password is the list of
--     its code units; the libraries of MD5 and of tokens are parameters.
--   UserService: the search for users; Strangers proves whom it shows.
--   LatencyLogger: the window of measurements and the statistics over it, by a sort that is proved.
--   Texts: the order of texts, and `split`.
--   Examples modules apply the theorems at concrete inputs.
--
-- Choices. A connection is a text, and so are ids: an id that is another JSON value is turned into a text
-- first. Times are natural numbers of milliseconds, numbers in payloads are whole. `Env` has what a
-- handler reads of its surroundings: the clock, which connections are open, `JSON.parse`. No definition
-- needs fuel: every loop of the source runs over a list that does not change under it.
--
-- Left out: logs and telemetry; the set-up of the server and the greeting of a new connection; failing
-- calls of Redis; histories in which methods interleave at an await, but for those that Race and
-- Notes.Interleaved name; the order in which queries sort, but for the pages of a chat;
-- transcription; controllers, but for the chat's; and migrations.
pub mod Prelude
pub mod JsMap
pub mod JsSet
pub mod SetMap
pub mod LockQueue
pub mod Json
pub mod RedisService
pub mod SyncGateway
pub mod Effect
pub mod Database
pub mod Entities
pub mod Permission
pub mod Invitation
pub mod Friends
pub mod VersionTracker
pub mod Projects
pub mod Jwt
pub mod Auth
pub mod PatternComments
pub mod PasswordHash
pub mod ChatController
pub mod ChatGateway
pub mod ChatService
pub mod Texts
pub mod UserService
pub mod LatencyLogger
pub mod NotificationGateway
