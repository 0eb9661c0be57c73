-- ===== src/Lib.antt =====
-- The auction server (Go): users put up auctions, moderators approve them, users bid, and clients
-- are told of new bids and messages over websockets. This library models the program's own logic
-- and proves what makes it correct.
--
-- The parts and their files. A request enters a handler (Server), which calls a service (Service),
-- which calls the store (Memory, seen as Store) and sends effects outward (Effects), some of them
-- to the websocket hub (Hub); the settings (Settings) are read by the services and the handlers.
--
-- - Prelude: shared helpers. Prelude.Tests and Prelude.Lists hold Boolean tests and lists over
--   native numbers; Prelude.Int Go's int64, each operation wrapped to 64 bits; Prelude.Text and
--   Prelude.Strings Go's strings as lists of code points and the functions of `strings` and
--   `strconv` that are called; Prelude.Dict Go's maps as association lists; Prelude.Sort an
--   insertion sort for `sort.Slice`.
-- - Domain: the records of internal/domain.
-- - Store: the interface internal/repository/auction_repository.go as a record, with the two laws
--   that the bidding service relies on.
-- - Memory: internal/repository/memory/auction_repository.go and moderation.go. Memory holds the
--   state (`Repository`) and the expiry pass; Memory.Bidding `PlaceBid`, `DeleteBid`,
--   `MinRequiredBid`, `LastBidAtMs`, `TopBids`, `GetAuctionByID`, `ResultContacts`; Memory.Owner
--   the owner's calls; Memory.Moderation the decisions; Memory.Feed the lists and pages.
--   Memory.Steps is the relation of all calls that change the store, and its reachable states; the
--   files below it and Memory.Aggregates, Expiry, Pricing, Paging, Walk, Visible, BestBids, Others
--   and Lifetime hold the proofs. Memory.Instance makes the store an `AuctionStore`.
-- - Postgres: internal/repository/postgres. Postgres holds the rows (schema.sql), the clauses of
--   SQL, the expiry pass; Postgres.Scan the scanning of rows; Postgres.Bidding the price rules and
--   the transactions of auction_repository.go, Postgres.BidLists its lists of bids, Postgres.Feed
--   its lists of auctions; Postgres.Owner is auction_owner_ops.go with the calls that create and
--   show an auction, Postgres.Moderation is moderation.go, Postgres.Cursor and Postgres.Pages
--   feed_page.go and the queue, Postgres.Chat chat_repository.go, Postgres.Notifications
--   notifications.go. Postgres.CursorText, Keyset, Walk, FeedWalk, Pricing, Rows, Placing,
--   BidTable, Expiry, Agreement and Conversation hold the proofs; Postgres.Instance makes the store
--   an `AuctionStore`, Postgres.Chat a `ChatStore`.
-- - Users: user_repository.go of the same folder and internal/domain/user.go; Users.Profiles holds
--   its login and its changes of a profile, Users.Social its follows and blocks, Users.Graph their
--   specification, Users.Refinement and Users.Blocking the proofs.
-- - Dashboard: the lists and counts for administrators in the same folder; Dashboard.Search holds
--   the proof on the search for users. Postgres.SettingsTable is app_settings.go.
-- - Service: internal/service/auction_service.go over any `AuctionStore`: its tests and messages in
--   Service, its methods in Service.Methods, its theorems in Service.Bidding and Service.Waiting;
--   Service.Moderation is internal/service/moderation_service.go.
-- - Effects: what internal/cache, internal/moderation/queue.go and internal/events send.
-- - Settings: internal/appsettings/store.go and the record of internal/config/config.go;
--   Settings.Environment its reading of the environment.
-- - Hub: internal/ws/hub.go.
-- - Server: internal/http. Server.Auctions and Server.MyAuctions are server.go, Server.Admin is
--   admin_moderation.go, Server.AppConfig is app_config.go, Server.Chat the message handlers of
--   users_chat.go and admin_tickets.go, Server.Accounts its other handlers, Server.Profile and
--   Server.Social users_profile.go, Server.Uploads uploads.go, Server.Notifications
--   notifications.go, Server.Dashboard admin_users.go, admin_reports.go and the list of
--   admin_tickets.go; Server.Visibility, AdminKey, SettingsPut, ChatDelivery, ProfilePrivacy,
--   BlockedChat and UploadNames hold the proofs.
-- - Tests: concrete data, and each theorem with hypotheses applied to it.
--
-- How code becomes definitions. A method is a function from its arguments and the state to its
-- answer and the next state. Each method of the store and the hub holds one lock, so a call is one
-- step, and an interleaving of clients is a sequence of steps. Every reading of the clock is an
-- argument, in the order in which the code reads it. A Boolean answer with a value is an `Option`;
-- a panic is `none` or `panics`. The aliasing of slices is not modelled, since the store copies a
-- list before it sorts it or hands it out. Loops are structural recursion over lists. Fuel appears
-- in `format_int` only, where the number itself is enough; `walk` in Memory.Walk and Postgres.Walk
-- bounds a client's requests, and its theorem says how many are enough.
--
-- SQL. A table is a list of its rows, a statement one step on it, and a statement outside a
-- transaction is executed; what a transaction leaves when some of its statements fail is part of
-- the model. ORDER BY keeps the order of the rows where its key leaves it open. The order of texts
-- under the database's collation and LOWER are parameters. BIGINT does not wrap: a sum out of range
-- is an error.
--
-- Bounds. Prices, times and limits are int64 and wrap; the theorems that need room say so (prices
-- and steps below 2 ^ 62, times below 2 ^ 61). Counts are natural numbers. `sort.Slice` leaves the
-- order of equal elements open, and `range` over a map the order of the entries: the model fixes
-- both, and the theorems on them hold up to permutation or for any list of entries. A Go string may
-- hold bytes that are not UTF-8; the model's text holds code points.
--
-- Not modelled: Redis, Kafka, the websocket connections, JSON, the HTTP mux, migration and seed
-- data, the processes in cmd, and vendored packages. What the program reads from them is an
-- argument of the definitions. Of the user and chat endpoints the answer where the store is missing
-- is left out.
pub mod Prelude
pub mod Domain
pub mod Store
pub mod Memory
pub mod Postgres
pub mod Users
pub mod Dashboard
pub mod Settings
pub mod Hub
pub mod Effects
pub mod Service
pub mod Server
pub mod Tests
