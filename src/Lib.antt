-- ===== src/Lib.antt =====
-- A model of webhook-broadcast, a webhook multiplexer: a sender posts to a Channel, the request is
-- stored as a Broadcast, and each enabled Endpoint of the Channel gets one Delivery, which workers
-- attempt over HTTP until it succeeds, is refused, or runs out of Attempts.
--
-- Parts and files, with the code they follow:
--   Store.Rows            packages/db/src/schema.ts: rows, statuses, the database
--   Store.Deliveries      packages/db/src/repositories/deliveries.ts; Lookup, Moves and Creation see
--                         each statement from the row of one Delivery
--   Store.Endpoints       packages/db/src/repositories/endpoints.ts
--   Store.Broadcasts      packages/db/src/repositories/broadcasts.ts; Listing and Cascade
--   Store.Channels        packages/db/src/repositories/channels.ts; Sound has the table's constraints,
--                         Slugs when a slug is free
--   Store.Views           reads of deliveries.ts that the admin API shows
--   Store.Directory       the paged lists of channels.ts and endpoints.ts, and the roll-up of failures
--   Store.Tokens          packages/db/src/repositories/channelTokens.ts and operatorTokens.ts
--   Paging                the keyset pagination that the list queries share (listBroadcastsByChannel,
--                         listBroadcastsForEndpointFailures, listChannels, listEndpoints); Lex has the
--                         orders of keys with several columns
--   FanOut                apps/api/src/fanOutBroadcast.ts: the transaction of a Broadcast and its
--                         Deliveries, the enqueue and its rollback
--   Retention             apps/api/src/worker/retentionSweeper.ts: one pass
--   Ingest                apps/api/src/ingest/routes.ts and readLimitedBody.ts: the whole handler of
--                         POST /ingest/:slug, with extractBearerToken of apps/api/src/admin/auth.ts
--   Login                 apps/api/src/admin/loginRateLimit.ts
--   Admin                 apps/api/src/admin: a handler monad for the routes, and Deliveries, Broadcasts,
--                         Channels, Endpoints, Tokens and Auth by the files of those names; Handling
--                         says what the end of a handler says of its parts
--   Tokens                apps/api/src/tokens.ts
--   Queue                 apps/api/src/deliveryQueue.ts over BullMQ
--   EndpointUrl           packages/contract/src/endpointUrl.ts; Ranges has the blocked addresses as
--                         CIDR ranges
--   ErrorChain            apps/api/src/errorChain.ts
--   Headers               apps/api/src/ingest/headers.ts, apps/api/src/worker/forwardHeaders.ts and
--                         the header merge of apps/api/src/worker/processDelivery.ts
--   Request               the settings, the request and the answer in processDelivery.ts
--   Retry                 apps/api/src/worker/retryPolicy.ts
--   Worker                apps/api/src/worker/processDelivery.ts; Verdict states the retry rules of
--                         docs/adr/0003 by themselves, Settle and Process are one run, and System is
--                         many processes on one database
--   Tls                   packages/db/src/ssl.ts and apps/api/src/redisTls.ts
--   DatabaseErrors        packages/db/src/pgErrors.ts
--   Dashboard             relativeTime.ts, elapsedClock.ts and activityFilter.ts of apps/web/src/lib
--   Base                  lists, options, text, JavaScript objects as association lists
--   Witnesses             inputs at which the hypotheses of the results hold, and tests
--
-- How the code is read. A repository function is a function of the database, which is the list of
-- rows of each table; a statement that is refused by a constraint returns no database, and a
-- transaction that fails leaves the one it had. A UUID is a number, a time is milliseconds since the
-- epoch, a text is the list of its code points. `processDelivery` is a computation in a state monad
-- over `World` (database, metrics, requests sent) that returns, throws `RetryableDeliveryError` or throws
-- what a statement threw; what it learns from outside (fetch, clock, random numbers, which of its
-- statements throw) is the argument `Surroundings`. The queue is the record `DeliveryQueue`, the interface of the same name in
-- apps/api/src/deliveryQueue.ts, and a parameter: `enqueue` may have changed the queue when it
-- throws, `enqueueBulk` of new ids has not, as Queue.Live shows of the one over BullMQ. `Worker.System` runs workers, the operator's retry,
-- fan-outs and deletes against each other: one step is one statement or one transaction, and between
-- its read and its completion a worker holds what it has read.
--
-- A route of the admin API takes the state to the state after it and to a reply, an error envelope or
-- an error that is thrown; what a zod schema leaves of a body or a query, and the number that an id of
-- the path stands for, are arguments. A collation of texts in the database is a parameter, with the law
-- that it is a strict total order.
--
-- Recursion is structural. Decimal digits of n take n + 1 rounds, more than n has digits; a reader of
-- pages takes one request more than there are rows; the walk along the causes of an error has room for
-- eight links and takes the pending list apart between two of them.
--
-- Not modelled: log lines, HTTP servers and process start-up, migrations and fixture data, the zod
-- schemas and generated documents of packages/contract, the percentiles of Endpoint health, the
-- base64url form of cursors, the React part of the dashboard in apps/web. Requests of the admin API
-- do not interleave; workers, fan-outs, deletes and the statement of a retry do, in Worker.System.
-- Hashes, URL parsing, DNS, BullMQ and the parsing of numbers and dates are the runtime's:
-- parameters.
pub mod Admin
pub mod Base
pub mod Dashboard
pub mod DatabaseErrors
pub mod EndpointUrl
pub mod ErrorChain
pub mod FanOut
pub mod Headers
pub mod Ingest
pub mod Login
pub mod Paging
pub mod Queue
pub mod Request
pub mod Retention
pub mod Retry
pub mod Store
pub mod Tls
pub mod Tokens
pub mod Witnesses
pub mod Worker
