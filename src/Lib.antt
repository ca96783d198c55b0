-- ===== src/Lib.antt =====
-- Verification library of the Rapido panel and its node agent.
--
-- A node runs a sing-box core with the inbounds of internal/nodecore, counts what its users do,
-- watches its WireGuard tunnels, and publishes its log. The panel polls the nodes. The library
-- models the parts of the node that keep state of their own, the log stream that panel and node
-- share, and of the panel its memory of password checks, the load map, the settings of proxies, the
-- review of users, the reports of resellers' traffic, the sweep of old usage, the scanners of dumps and the import of
-- Marzban, the tokens of subscriptions, and the live reports of the nodes with who is online:
--
-- * Logstream.antt and its children, internal/logstream/ring.go and publisher.go. Ring.antt is the
--   fixed-capacity buffer: `Ring` has the fields buf, start, n and last_id, `add`, `after` and
--   `tail` are Add, After and Tail. Level.antt is LevelRank, NormalizeLevel and FromSlogLevel,
--   Filter.antt is Entry.Matches. Publisher.antt is Flush and report against a Redis list.
-- * TunnelHealth.antt, internal/tunnelhealth/monitor.go: New, Watch, Tick, record, trackedNames, Up,
--   Status and Health. Verdict.antt is about one tunnel, Rounds.antt about whole ticks.
-- * Fallback.antt, internal/nodecore/fallback.go: the supervisor, which asks the monitor for Up and
--   points the selectors of the core at a member. Selectors are the record `Selectors` of what the
--   supervisor relies on; Tests.antt fills it with a concrete core.
-- * Traffic/Presence.antt, internal/nodecore/traffic/presence.go: OpenConn with its close func,
--   ResetPresence and Presence. Traffic/Usage.antt, internal/nodecore/traffic/traffic.go: Add and
--   Drain. Traffic/ConnGroup.antt, internal/nodecore/traffic/conngroup.go: Hold with the func that it
--   returns, CloseAll and Len.
-- * Aggregator.antt, internal/nodelog/aggregate.go: Count, Totals and Flush.
-- * NodeLog.antt and its children, internal/nodelog/classify.go and capture.go: NodeLog.antt is StripANSI
--   and ParseLine, Classify.antt Classify, and Capture.antt handle and Process. A regular expression is
--   the function that matches it.
-- * VerifyCache.antt, internal/auth/verifycache.go: Verify and evictLocked, over the keys and the
--   password comparison of the libraries.
-- * LoadMap.antt and its children, internal/loadmap/loadmap.go, dns.go and redis.go. Level.antt is LevelFor,
--   Emoji and Percent; Fleet.antt has the nodes, the hosts, activeNodes, serves and overlaps;
--   Compute.antt is compute; Build.antt is build and For over the answers of the database, of Redis
--   and of the resolver; Cache.antt is Snapshot with startRefresh; Dns.antt is lookup and spawn; Redis.antt
--   is Read; Config.antt is the defaults of New, safeBuild, expand and addresses. The
--   quotient of Percent is exact, which the floats round alike below 2^40 connections.
-- * Mysqldump.antt and its children, internal/legacyimport/mysqldump.go, on lists of bytes with the
--   rest of a text for an offset. Mysqldump.antt is parseQuotedString, parseBareLiteral and
--   parseValuesTuples, Literal.antt strconv.ParseInt, Dump.antt ParseMySQLDump,
--   parseCreateTable, parseInsertHeader and Row. The loops run on fuel, one
--   for each byte or line and one more, and each round reads at least one.
-- * ProxySettings.antt, internal/proxysettings/proxysettings.go: the settings of each protocol, parse
--   with FromWire and FromStored, MarshalJSON and Revoke, over encoding/json as the record `Json`.
-- * Pgdump.antt and its children, internal/legacyimport/pgdump.go. Pgdump.antt is parseCopyRow,
--   unescapeCopyField and readIdent, Copy.antt the headers, ParsePgDump and Rows, with what the
--   reader is in (no block, a kept one, a skipped one) as a state.
-- * ReviewJob.antt and its children, internal/reviewjob/reviewjob.go with its queries of
--   internal/db/queries/review.sql, over the tables as maps from their keys. A job is a state monad
--   whose queries may fail.
-- * ResellerUsage.antt and its children, internal/resellerusagejob/resellerusagejob.go: Tick, split
--   where it waits for the reseller bot, over the queue of internal/db/queries/resellerapi.sql.
-- * UsageSweep.antt and its children, internal/usagejob/usagejob.go: Sweep over node_user_usages. Every
--   round but the last removes a row, so that one round for each row and one more are enough fuel.
-- * Subscription.antt and its children, internal/subscription/token.go with the lookup of
--   internal/httpapi/subscription.go and the admitted names of internal/httpapi/user.go. SHA-256, HMAC
--   and the JWT library are parameters. A number's digits need one round each: the number is enough.
-- * Marzban.antt and its children, internal/legacyimport/marzban.go with the records of
--   internal/legacyimport/types.go, on the tables of Mysqldump. Each loop is a recursion on the rows of
--   its table.
-- * NodeLive.antt and its children, internal/httpapi/nodelive.go with internal/httpapi/presence.go: the
--   requests of the nodes and what is read of them, over the keys of Redis with their expiry. The lines
--   are those of Logstream. Requests may overlap: each has the cursor that its GET gave before.
-- * Prelude.antt and its children: lists, maps, circular buffers, counting, texts, Go's integers and
--   sort.Search.
--
-- Go's int64 values are integers, `int64` being their wrap-around modulo 2^64. Indices, lengths and
-- the streaks of the monitor, which grow by one a round, are natural numbers. Texts are valid UTF-8.
-- A slice is a list, a map is an association list with each key once. A method that holds a mutex
-- is one step; where it reads a clock or calls out, the reading or result is an argument. The binary
-- search of After has as many rounds as the ring has entries, of which each narrows the search, and
-- Flush as many chunks as entries, of which each takes at least one. Redis takes a pipeline's
-- commands in order and may fail after any number of them.
--
-- The log lines of the monitor and the supervisor, tickers, contexts and the texts of JSON are not
-- modelled. Nor are the other HTTP handlers of the panel, its other database access, which is
-- generated, the other jobs, the importers of other panels than Marzban, the links of a subscription,
-- the bots, and the inbounds, which adapt sing-box.
pub mod Prelude
pub mod Logstream
pub mod TunnelHealth
pub mod Fallback
pub mod Traffic
pub mod VerifyCache
pub mod Aggregator
pub mod LoadMap
pub mod Mysqldump
pub mod ProxySettings
pub mod Pgdump
pub mod ReviewJob
pub mod ResellerUsage
pub mod UsageSweep
pub mod Subscription
pub mod Marzban
pub mod NodeLive
pub mod NodeLog
