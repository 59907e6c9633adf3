-- ===== src/Lib.antt =====
-- The hub of TroofAI (services/hub-api): it enrolls the devices of a tenant's users, binds a device
-- to a participant of a meeting, challenges the bound devices by WebSocket, judges their signed
-- responses, and tells the clients that watch a meeting which participants can be trusted.
--
-- The parts and their files. Each service method is a function from the state to a result and a state.
--   Schema      the tables of services/hub-api/prisma/schema.prisma
--   Platform    what the hub calls and does not contain: PostgreSQL behind Prisma (Database), Redis
--               (KeyValue), the clock (Time), the random sources, JSON, ISO dates, RSA-SHA256
--   Exec        results, exceptions, and sequences of awaits
--   World       the state that all services share, and their calls of Prisma, Redis, clock and random
--               sources; services/hub-api/src/redis/redis.service.ts
--   Gateway     services/hub-api/src/gateway/events.gateway.ts: the socket tables and what is emitted; Sockets is the
--               order of the tables, Delivery is who gets what, Subscriptions is the view of the tables
--               as a relation
--   Events      the two handlers of the gateway that call a service
--   Policy      services/hub-api/src/policy/policy.service.ts; Rules has the table of SPEC.md, section 5
--   Audit       services/hub-api/src/audit/audit.service.ts
--   Device      services/hub-api/src/device/device.service.ts and device.dto.ts
--   Meeting     services/hub-api/src/meeting/meeting.service.ts and meeting.dto.ts: create, addParticipant,
--               issueJoinToken, bindDevice; Reads has getMeeting, getParticipants, listByTenant,
--               Race the rest of bindDevice after its first await, Replays two bindings at once
--   Challenge   services/hub-api/src/challenge/challenge.service.ts: issueChallenge (issue_challenge, with issue_one
--               for a round of its loop) and verifyResponse (verify_response, check_device, judge
--               and settle for its steps); Race has the rest of verifyResponse after its first await,
--               Delivered is what goes out on the sockets
--   Api         the controllers of services/hub-api/src (challenge, meeting, device, audit); Requests has
--               what reaches the hub from outside, and the states that it comes to
--   Interleaving  the handlers call by call (Handlers, Services, Requests) and the server with many under way
--               (Schedule); Alone and Served compare them with the whole handlers, Safety, Challenges,
--               Issuing, Bindings and Serving are about what they keep
--   Integrity   what holds of the whole state, and rules that carry it through sequences of calls
--   Auth        services/hub-api/src/auth: the API key guard, the demo tenant and its controller
--   Stats       services/hub-api/src/stats/stats.controller.ts; its one route only reads, and is no request of Api
--   DemoMeeting apps/web/src/app/demo-meeting/page.tsx: the simulated meeting and its button
--   ZoomMeeting apps/web/src/app/zoom-meeting/page.tsx: its set-up, its polling and its button, on the hub
--               that `serve` of Api.Requests is; Proceeds, Opened and Setup are about the set-up, Display is
--               what the page shows
--   Agent       agent/windows/TroofAI.Companion: the agent on a user's machine. Its key (KeyService.cs), its
--               enrollment (EnrollmentService.cs, Program.cs) and what it signs (ChallengeSigningService.cs,
--               BindingService.cs, WebSocketService.cs); Keys, Rounds and Bindings join it to the hub
--   PageViews   what the pages of apps/web/src/app show of a row, and their demo data: zoom-meeting (Zoom), audit
--               (Trail), devices and meetings (Rows), dashboard (Overview); Honest is about what is shown
--   HubPages    apps/web/src/app/devices/page.tsx, meetings/page.tsx and audit/page.tsx: what they fetch
--   EnrollPage  apps/web/src/app/enrollment/page.tsx: the form and its flow
--   ZoomSignature  apps/web/src/app/api/zoom-signature/route.ts: the token for the Zoom SDK
--   Dashboard   apps/web/src/app/dashboard/page.tsx: the polling of the hub, with demo data in place
--               of answers that fail
--   Collections a Map and a Set of JavaScript as lists in the order of insertion
--   Memory      a platform that runs; Examples run on it
-- How the parts interact: challenge and meeting services read and write the tables and Redis through
-- World, append to the audit log through Audit.log, ask Policy.evaluate for the verdict, and emit
-- through Gateway; the gateway hands a heartbeat to Device and a response to Challenge.
--
-- How the code is read:
--   - A method that awaits is a sequence (◌>>=◌) of calls. An exception ends it, and what has been
--     written before stays written. `serve` of Api.Requests serves a request whole. Interleaving has
--     each handler a second time, call by call (the names end in _steps), and a server on which any number
--     of requests are under way and the calls of all come in any order (Leads). JavaScript overtakes a
--     handler at an await only, so its orders are among these. The reads that are one query of Prisma,
--     the audit log's `log` and the making of the demo tenant are one call each.
--   - A time is a number of milliseconds. Every reading of the clock is a new one, and the clock does
--     not run backwards. Node, PostgreSQL and Redis have the same clock.
--   - A nullable column, an optional field and `undefined` are an Option; a test such as `!x` on a
--     text is `truthy`, for which the empty text is absent.
--   - A socket is known by its id. An emission is appended to a list; whether it arrives is not said.
--   - Numbers of JavaScript are natural numbers, but for the rate of the statistics, which uses
--     operations on doubles that are a parameter.
--   - Signatures are a parameter: rsa_verify says of a key, a text and a signature whether they match,
--     or throws. Nothing is assumed of it, but what a theorem names: that the hub's check accepts what
--     a key of the agent signs (Accepts), or that a signature is of one text only (Commits).
--   - A failure of the connection to the database or to Redis is not modelled: a call of Prisma fails
--     only for a key that is taken, a row that is missing, or a foreign key. A stored challenge or
--     token has the shape that the hub stores.
--   - The pages that are modelled with the hub reach it: a request without an answer is not modelled,
--     but for the dashboard. What an answer of the hub holds is read without JSON.
--   - The recursions are over lists and texts, but for the printing of a number in decimal
--     (Prelude.Text.show) and in binary (Memory.Texts.bits), which run on one more step than the
--     number: it has no more digits.
-- Not modelled: log lines, the validation of request bodies, module wiring and start-up but
-- onModuleInit of the challenge module, the elements, the layout and the dates of apps/web, and of the agent
-- what it prints, the HTTP listener, the reconnection and the timer.
pub mod Prelude
pub mod Schema
pub mod Platform
pub mod Exec
pub mod Collections
pub mod Gateway
pub mod World
pub mod Policy
pub mod Audit
pub mod Device
pub mod Challenge
pub mod Meeting
pub mod Events
pub mod Auth
pub mod Stats
pub mod DemoMeeting
pub mod Dashboard
pub mod Memory
pub mod Integrity
pub mod Api
pub mod ZoomMeeting
pub mod Agent
pub mod Interleaving
pub mod PageViews
pub mod HubPages
pub mod EnrollPage
pub mod ZoomSignature
pub mod Examples
