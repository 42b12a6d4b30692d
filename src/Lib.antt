-- ===== src/Lib.antt =====
-- Verification library of the matchmaking service for asynchronous solitaire tournaments.
--
-- The program queues tickets, chooses a room for each by skill and waiting time, and stores the
-- assignment in PostgreSQL. pkg/rating has the estimates of skill, pkg/matchmaking the pure choice of
-- a room, internal/tournament the lifecycle data and the commands, internal/postgres the transactions
-- that carry a command out. A worker claims a ticket, runs a match attempt on it and sends the command
-- that the attempt calls for to the ticket store.
--
-- Which file models what:
--   Base                          numbers, times, float64, results with errors, stable sorting
--   Rating/Types                  pkg/rating/types.go: Estimate, Features, MatchResult and Validate
--   Matchmaking/Policy            pkg/matchmaking/policy.go, and AllowedSkillGap of priority.go
--   Matchmaking/Validation        pkg/matchmaking/validation.go: Candidate.Validate, RoomView.Validate
--   Matchmaking/Priority          pkg/matchmaking/priority.go: PrioritizeWaitingRooms
--   Matchmaking/Fairness          pkg/matchmaking/eligibility.go: EvaluateFairness and the skill gap
--   Matchmaking/Eligibility       pkg/matchmaking/eligibility.go: evaluateCandidate, Filter
--   Matchmaking/Selector          pkg/matchmaking/selector.go: SelectRoom
--   Matchmaking/Orchestration     pkg/matchmaking/orchestration.go: AttemptMatch and its retry time
--   Tournament/Model              internal/tournament/model.go: statuses, Config, Ticket
--   Tournament/Tickets            internal/tournament/tickets.go: commands, Validate, RequestDigest
--   Postgres/Tables               the rows that internal/postgres/tickets.go reads and writes
--   Postgres/Tickets              AcceptTicket, CancelTicket and ExpireTicket of tickets.go
--   Postgres/Assignment, Assign   AssignTicket and GetTicket of tickets.go
--   Postgres/Commands, Rooms      histories of commands, and what is kept over them
--   Tournament/Service            internal/tournament/tickets.go: TicketService
--   Postgres/Service              the ticket store as the repository of TicketService
--   Tournament/Results            internal/tournament/results.go: commands, Validate, ResultService
--   Postgres/Results, Finalize    FinalizeResult of internal/postgres/results.go
--   Postgres/Deadlines            ExpireResultRooms of internal/postgres/results.go
--   Postgres/Lifecycle            histories of tickets, results and deadlines on one store
--   Worker/Outbox                 internal/worker/outbox.go: claims, delays and RunOnce
--   Worker/Queue, Processor       internal/worker/queue.go and processor.go: MatchProcessor.Handle
--   Worker/Runner                 internal/worker/runner.go and result_deadlines.go: RunOnce
--   Postgres/MatchmakingQueue     internal/postgres/matchmaking_queue.go: claims, leases, LoadMatchAttempt
--   Postgres/Matching             the processor on the stores of internal/postgres
--   Postgres/OutboxQueue          internal/postgres/outbox_queue.go, and its histories
-- The files in a folder below these hold their lemmas and theorems; each Examples.antt, and
-- Postgres/Endings for the results, has concrete runs. A Go function keeps its name in lower case with underscores; a Go error is a constructor of the
-- Error type of its package, with err, and the checks stand in the order of the source.
--
-- Conventions. A time is a natural number of nanoseconds from the zero time of Go, a duration an
-- integer with the range of int64, where the code wraps or saturates the model does. An int of Go that
-- is stored as a version wraps at 64 bits. float64 is a parameter: a record of operations, with the laws
-- of IEEE 754 as an interface where a theorem needs them, and a fixed-point instance that meets the
-- laws. The predictor is an interface of the source and so a parameter that may fail. SHA-256 over JSON
-- is a parameter from the struct that is encoded, and so are the hashes in the identities of events and
-- of the worker's commands, the decoding of a policy's JSON and the rating model that the worker builds.
-- slices.SortStableFunc is a stable insertion sort. Every loop is a recursion on its list, on the number
-- of seats or on the attempts that are left, so no fuel is used.
--
-- A transaction is a function from the tables to a result and the tables; an error leaves the tables as
-- they were, as the deferred rollback does. A query with a unique key reads the first row with it, an
-- insert checks the keys that the code maps to its own errors, and FOR UPDATE makes the transactions on
-- a ticket or a room follow each other, so that a history is a list of commands. An expiry and an
-- assignment are given the time of the database clock, and so is a statement that checks a lease.
--
-- The rows that SKIP LOCKED passes over are a parameter. The outbox is a list of events for the transactions that write it; the queue that delivers it has the
-- columns of a claim as well. A publisher that answers is a parameter of the
-- runner, and so is whether the context is done when the loop over the claims comes to one; an event whose
-- payload is JSON and an object is a test that is one too. The fields of a Go map are visited in the
-- order in which they are written. An UPDATE returns its rows in the order of its query.
--
-- A column of a time keeps what is written to it to the nanosecond; in the database it keeps microseconds, so
-- what a query reads back of the time of a worker or a handler may be less by a part of a microsecond.
--
-- Not modelled: failures of the connection, that rounding, the order in
-- which waiting transactions are let in, timers and the deadlines of contexts, the overflow of the
-- column attempt_count, the rating queues, the read models, the rating models
-- (exp, log and sqrt on float64), the HTTP API, configuration, metrics, migrations and the simulator.
pub mod Base
pub mod Rating
pub mod Matchmaking
pub mod Tournament
pub mod Worker
pub mod Postgres
