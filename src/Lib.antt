-- ===== src/Lib.antt =====
-- Image App: a verification library for the core of its backend.
--
-- The backend takes commands over HTTP. A command handler does its work on MongoDB in a transaction
-- of the unit of work, and queues events on the event bus, whose handlers run once the transaction
-- has committed. Redis holds sessions, caches, deferred jobs and Bloom filters. Errors travel as
-- values of one class, up to the middleware that turns them into a reply.
--
-- Which file models which part (paths from the repository's root):
-- - Errors: backend/src/utils/errors.ts. Errors/Handler has `handleError` and `toJSON`, and
--   Errors/Factory the factories of `Errors`. A JavaScript value that is thrown is a `Thrown`.
-- - EventBus: backend/src/application/common/buses/event.bus.ts. EventBus/Sharing runs sequences of
--   calls on the one bus that all transactions share.
-- - UnitOfWork: backend/src/database/UnitOfWork.ts, with Semaphore, Retryable (`isRetryableError`),
--   Backoff, Metrics and Transaction (`executeInTransaction`) as children.
-- - Retry: backend/src/services/retry.service.ts. Retry/Laws is about `execute`, Retry/Batches about
--   `executeAll`.
-- - Sessions: backend/src/services/auth-session.service.ts. Sessions/Token has what reads no store,
--   Sessions/Service the methods; the other children have what the methods do to the store (Keys,
--   Effects), tokens and their rotation (Rotation), the users' indexes (Index, Revocation), whole
--   runs (Runs), and an access check whose write comes late (Races).
-- - TransactionQueue: backend/src/services/transaction-queue.service.ts. Laws is about the counters, Order
--   and Drain are about the rounds of the loop, Accepted about jobs that are enqueued.
-- - BloomFilter: backend/src/services/redis/bloom-filter.service.ts.
-- - Sanitizers: backend/src/utils/sanitizers.ts.
-- - Likes: backend/src/application/commands/users/likeActionByPublicId/likeActionByPublicId.handler.ts,
--   with the methods that it calls of backend/src/repositories/postLike.repository.ts and
--   backend/src/repositories/post.repository.ts.
-- - Follows: backend/src/application/commands/users/followUser/followUser.handler.ts, with the methods
--   that it calls of backend/src/repositories/follow.repository.ts and user.repository.ts. Follows/Laws
--   is about the documents of the users, Follows/Commands about commands.
-- - Comments: the commands of backend/src/application/commands/comments, with the methods that they call
--   of backend/src/repositories/comment.repository.ts, commentLike.repository.ts and their neighbours.
--   Create, Delete and Likes have the three handlers, and Threads the walk up to the root of a thread;
--   Laws is about counters and threads, Commands about transactions, Notices about notifications,
--   Asked and Cleared about what a creation and a deletion do to the comments, and Creation, Deletion
--   and Runs about whole commands.
-- - Communities: the commands of backend/src/application/commands/community, with the methods that they
--   call of backend/src/repositories/community.repository.ts, communityMember.repository.ts,
--   base.repository.ts and user.repository.ts. Communities/Slug is `generateSlug` of
--   backend/src/utils/helpers.ts, Handlers the commands about members, Settings the creation and the
--   update. Laws is about the counters and lists, Commands and Creation about transactions, Roles about
--   reads, Kicks and Runs about whole commands.
-- - Notifications: backend/src/services/notification.service.ts, with
--   backend/src/services/redis/redis-notification.module.ts (Cache) and
--   backend/src/repositories/notification.respository.ts (Service, with the service). Laws is about the
--   list and the hashes of the cache, Transparent and Answers about the cache beside the collection.
--   Memory is a server that has the commands that Cache takes as a parameter.
-- - TrendingTags:
--   backend/src/application/queries/tags/getTrendingTags/getTrendingTags.handler.ts, with the settings of
--   backend/src/config/cacheConfig.ts. TrendingTags/Ttl is about the time to live, TrendingTags/Laws about
--   the writes.
-- - Redis: the commands of the Redis server that the session service calls, as a record of
--   operations and documented laws, with Redis/Memory as a server that has them. Exec is the monad
--   of methods that read and write a store and may throw. Common has what the parts share: Lists, Tests,
--   Text, Numbers (settings), Counters (`$inc`) and Pairs (documents that join two ids).
--
-- State is passed on explicitly. An `await` at which other calls may run is the end of one step; the
-- semaphore, the shared bus and the late access check are modelled by sequences of steps. Random
-- numbers, the clock, and the outcomes of the driver, of handlers and of the network are arguments.
--
-- Bounds and fuel. The loop of `executeInTransaction` has `maxAttempts + 1` rounds of fuel, and always
-- ends with them. `execute` of the retry service has one round for each attempt. The loop of
-- `getCommentWithAncestors` needs one round more than the depth of the comment. The loop of the
-- transaction queue runs for a list of rounds, and numbers are natural numbers: counters stay far
-- below 2^53. A float division whose result is cut off is a fraction of natural numbers.
--
-- Not modelled: the log, stack traces, the driver, SHA-256 and SHA-1 (parameters), the logarithms of
-- the Bloom filter's shape (a parameter), the expiry of keys during a run of the session service
-- or of the notifications, and the parts of the repository that are glue, queries of the database, or
-- user interface.
pub mod Common
pub mod Comments
pub mod Communities
pub mod Errors
pub mod EventBus
pub mod UnitOfWork
pub mod Retry
pub mod Redis
pub mod Sessions
pub mod Exec
pub mod TransactionQueue
pub mod BloomFilter
pub mod Sanitizers
pub mod Likes
pub mod Notifications
pub mod Follows
pub mod TrendingTags
