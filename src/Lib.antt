-- ===== src/Lib.antt =====
-- A verification library for Mailx, an email delivery service in Go: the path that a message
-- takes from the work queue to the recipient's mail server, and back to the queue for a retry.
--
-- A worker claims a job from the queue, asks the store and its gates whether the message may be
-- sent now, makes one call of the retry coordinator, and makes the outcome durable before it
-- acknowledges or releases the claim; a final failure may make a notification. The coordinator
-- looks at the lifecycle so far, runs one delivery operation, records how it ended, and plans
-- the next operation if there may be one. A delivery operation resolves the domain's MX hosts,
-- or takes the configured relay, and tries one host after another; each try is one transfer,
-- which is one session of the SMTP client. A session's error goes up through transfer, delivery
-- and retry, and each of them reads it. The SMTP server takes messages in: it reads a client's
-- commands and hands each message with its envelope to a sink.
--
-- Base            the types and lemmas that the rest shares: tests, lists, signed integers, text
-- Queue.Job       internal/queue/job.go: Job, validate
-- Queue.Memory    internal/queue/memory.go: entry, entryHeap, MemoryQueue, NewMemoryQueue, Len,
--                 Enqueue, Claim, Ack, Renew, Release, Close; the state is the record MemoryQueue,
--                 one function per operation, `run` a history of calls. Store has the map and the
--                 heap; Agreement, Change and Invariant are about one step and any history; Order
--                 is about claims, Tokens about stale owners, Wakeups about calls that wait.
-- Errors          the errors of internal/smtp, internal/transfer, internal/dns and
--                 internal/delivery, as chains
-- Smtp            internal/smtp. Validation has client.go: validateEnvelopePath, and
--                 client_auth.go: Credentials.Validate; Session has client.go: Send, run, hello,
--                 and client_error.go: replyError, deliveryErrorFromRead; Replies has
--                 client_reply.go, and Data has client_data.go: serializeForDATA; Channel and
--                 StartTls have client_tls.go: secure, Upgrade has client_auth.go: authenticate,
--                 and Payload what it uses of base64
-- Smtp.Server     internal/smtp, the server of one connection. Reader has server.go: readCommand,
--                 readData; Command has command, isKnownCommand, parsePathArgument; Config has
--                 config.go: normalized; Reply has reply.go: wire, validateEnhancedStatus; Auth
--                 has what server.go uses of base64; Transaction has the session and the commands
--                 that only change it; Serve has serve and HandleConnectionWithConfig
-- Dns             internal/dns/mx.go: canonicalHost, isNullMXRecord, hostSafe, sortAndDedup;
--                 resolver.go: LookupMX, classifyDNSError, implicitFallback, normalizeDomain
-- Transfer        internal/transfer/transfer.go: Service.Transfer
-- Delivery        internal/delivery/policy.go: decideFallback, classifyFinal; delivery.go:
--                 NewEngine, Deliver, validateRequest, extractDomain, orderCandidates, finishDNS,
--                 finishContext; result.go
-- Retry           internal/retry: Decide, State.Record, Evaluate, BackoffPolicy.Delay and Jitter,
--                 NextSchedule, NewCoordinator, Coordinator.Attempt
-- Routing.Select  internal/routing/select.go: SelectMember
-- Ratelimit       internal/ratelimit/policy.go: RetryAfterSeconds
-- Retry.Faults    a fault of the network, through all of these
-- Suppression     internal/suppression/address.go: Normalize
-- Bounce          internal/bounce. Status has status.go; Classify has classify.go; Dsn has dsn.go:
--                 Eligible, NewDSN, safety.go and recipient.go
-- Worker          internal/worker. World is what the dependencies of one processing answer, and
--                 the events; Hold has routing.go, Suppress suppression.go, Permit permits.go,
--                 Persist processor.go: persistOutcome, Notify handleTerminalFailure, and
--                 Processor processOne, handleAttemptError, recipientDomain. Protocol is the order
--                 of events that is allowed, as a step relation.
-- Database        Outcomes has internal/database/outcomes.go: PersistDeliveryOutcome; Suppressed
--                 has suppressions.go: RecordSuppressedRecipients; Store has
--                 cmd/mailx/outcome_store.go: Persist and Load, between Retry and Outcomes
--
-- How the program is modelled. A step of the queue is what a call does while it holds the
-- mutex; a call that waits returns the channel and the timer that it waits on, and is resumed
-- by a wake. The clock is an argument. A peer of the SMTP client is the list of its replies and
-- I/O failures; a list that has run out is a closed connection. A connection of the server, and
-- the reader of the client's replies, are the list of bytes that are still to come; what the
-- server does is a list of events, and its sink is a function from the number of the call to
-- the answer. The resolver, the transferer and the context of a delivery are functions from the
-- number of the call to the answer, in the record World; what DNS answers a resolution is the
-- record Answers. One processing of a claim is a function of the record World, with one answer
-- for each call that it makes at most once and a list for the rounds of persistence; a
-- transaction is a function of its now() and the rows of one message. Text is a list of code points, which
-- are bytes where it is ASCII; strings.ToLower and EqualFold are modelled on ASCII. Durations
-- are integers of nanoseconds, and the jitter wraps as int64 does; the queue's counters wrap at
-- 2^64, and what rests on their order asks for a history that does not reach that. SHA-256 in
-- the choice of a member is a parameter.
--
-- Recursion is structural, or on the number of rounds that the code computes, but for three
-- fuels: that of decimal digits (20, as many as a 64-bit number has); that of the loop of
-- readData and that of serve, each one more than the bytes to come, since each round takes a
-- byte at least.
--
-- Not modelled: identifiers and instants in results, texts of errors, tracing and metrics, the
-- default shuffle, the TLS and AUTH stages within Session.run (StartTls and Upgrade have them;
-- run takes the error that they end with), the TLS handshake (its error is a parameter), the
-- deadlines and failed writes of the server, and the parser of messages (a parameter of the
-- server, like its authenticator). Of the worker, the loop over claims and the recovery from a
-- panic; of the store, a failure of PostgreSQL, which leaves the rows as they were. The
-- packages around this path (the HTTP API, storage, domains, billing and others) are not
-- modelled.
pub mod Base
pub mod Queue
pub mod Errors
pub mod Dns
pub mod Smtp
pub mod Transfer
pub mod Delivery
pub mod Retry
pub mod Routing
pub mod Ratelimit
pub mod Suppression
pub mod Bounce
pub mod Worker
pub mod Database
