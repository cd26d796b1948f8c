-- ===== src/Lib.antt =====
-- SquirrelCommunicator's server: the parts that keep its state, as functions on that state.
--
-- The program is a chat server. Clients log in and get a session token (FSessionManager), may hand
-- their login to another application by a transfer token (FTransferTokenManager), and use servers
-- with members, channels and messages (FServer, kept by FServersManager), private conversations
-- (FConversationsManager) and friends (FFriendListManager), which the handlers of the WebSocket
-- (FPrivateSocketData, FServersSocketData) change. Each request passes the
-- rate limits first (FRateLimiter, behind FAbuseProtection).
--
-- Files, and the code that they model (paths from the repository's root):
-- - UnorderedMap: std::unordered_map and CUnorderedMap of ProjectServer/Source/Utils/EngineCompat.h,
--   as an association list with unique keys, whose order stands for the iteration order.
-- - RateLimiter: FRateLimit and FRateLimitObject of ProjectServer/Source/Private/AbuseProtection/
--   RateLimiter.cpp; RateLimiter/Limits has FRateLimiter's counters, limits and worker.
-- - InviteAbuse: the invite bans of the same class; eve::algo::remove_if is the interface RemoveIf.
-- - SessionManager: FSessionManager of ProjectServer/Source/Private/Auth/SessionManager.cpp, and in
--   SessionManager/Lifetime three methods of FUserManager (Private/Auth/UserManager.cpp) over it.
-- - TransferTokens: FTransferTokenManager of ProjectServer/Source/Private/Auth/
--   TransferTokenManager.cpp, and the route that redeems a token
--   (Private/Rest/TransferTokenEndpoint.cpp).
-- - Server: FServer of ProjectServer/Source/Private/Managers/Server.cpp: its channels, members and
--   messages in a child each, and the permission bits of Public/Managers/Server.h.
-- - Conversations: FConversationsManager of ProjectServer/Source/Private/Managers/
--   ConversationsManager.cpp: private conversations cached over the database, the interface
--   ConversationDatabase. Children: the searches in the deque of messages (Lookback), adding, editing
--   and deleting (Messages), finding and creating conversations (Create), pages (Range), the retention
--   trim (Retention) and sequences of calls (Calls).
-- - FriendList: FFriendListManager of ProjectServer/Source/Private/Managers/FriendListManager.cpp: the
--   caches of friends and requests over the interface FriendDatabase; the operations that change them
--   (Requests), the lists by range (Ranges) and sequences of calls (Calls).
-- - PrivateSocket: handlers of ProjectServer/Source/Private/Sockets/PrivateSocketData.cpp, of friends
--   and friend requests over FriendList, and in PrivateSocket/Messages of messages over
--   Conversations. FUserManager::GetUserById is a parameter.
-- - SocketData: the names of message types and their hashes, of ProjectServer/Source/Private/Sockets/
--   SocketData.cpp.
-- - ServersSocket: the handlers of FServersSocketData (ProjectServer/Source/Private/Sockets/
--   ServersSocketData.cpp) over ServersManager, for channels, messages, members, presence and whole
--   servers in a child each. AbuseProtection has the wrappers of FAbuseProtection that they ask.
--   FUserManager::GetUserById is the record Users.
-- - ServersManager: FServersManager of ProjectServer/Source/Private/Managers/ServersManager.cpp: the
--   cache of servers, permissions, and in its children channels, voice channels, members, messages,
--   invites (with InviteAbuse), creation and lists of servers (Servers) and the second tick
--   (Retention). What its SQL statements do are the interfaces Database, MessageStatements,
--   InviteStatements and ServerStatements. Handlers of channels share their
--   beginning, `as_manager`, and the part after it has the suffix `_in`.
-- - Prelude: the names and lemmas that the others share.
-- Functions have the methods' names in snake case, records the fields' names. A method that changes
-- the object takes it last and returns it, with the method's answer beside it, if any.
--
-- Conventions. Numbers are natural numbers; Uint64 sums and the int32 counter wrap around
-- (Prelude/Words). Times and settings are not negative. The clock, random tokens
-- and what LoginFromId answers are arguments.
-- A method that takes its lock once is one step; one that takes it twice is composed of its
-- sections, which the modules on races run apart. A shared pointer to a channel is the channel's id
-- in its server's map, as one to a conversation is the conversation's id. An int32 is its bit pattern.
-- All loops run over a given list, so no fuel is needed.
--
-- Not modelled: SQL, HTTP, JSON and WebSocket I/O, e-mail, logging, the hashing of passwords
-- (ThirdParty/argon2), and, so far, the manager of users, the sockets' subscriptions, and the handlers of
-- FServersSocketData that join a voice channel or list servers.
pub mod Prelude
pub mod AbuseProtection
pub mod Conversations
pub mod FriendList
pub mod InviteAbuse
pub mod PrivateSocket
pub mod RateLimiter
pub mod Server
pub mod ServersManager
pub mod ServersSocket
pub mod SessionManager
pub mod SocketData
pub mod TransferTokens
pub mod UnorderedMap
