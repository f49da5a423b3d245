-- ===== src/Lib.antt =====
-- Verification library of Radio Jockey: the TypeScript of its web server and of its Discord bot.
--
-- The program. A Discord bot (discord-jockey/src) takes slash commands, calls the radio server
-- over Connect (proto/radio-jockey.proto) and plays the server's Icecast stream in a voice
-- channel. The web client (web/src) has one endpoint of its own,
-- web/src/routes/api/youtube-search/+server.ts, which searches YouTube behind a cache in memory, and
-- pages that call that endpoint and the radio server.
--
-- Files.
--   Base: names of the libraries, passed on, and what the components share: a text is the list of
--     its UTF-16 code units, a `Map` with string keys is the list of its entries in the order of
--     insertion, a result that may be thrown is an Outcome. Numbers are the native ℕ; positions
--     and identifiers that may be negative are ℤ.
--   Proto: discord-jockey/src/proto/radio-jockey_pb.ts. Messages has a record for each message,
--     Methods the table of radio-jockey_connect.ts, Service the methods of the service as a record
--     of functions over the world outside.
--   Search: +server.ts. Entities is decodeHtmlEntities, with the scan of `replace` as a recursion
--     on the text; Cache is cacheKey and setCache; Json is parseErrorReason; Responses, Trimming
--     and Handler are GET. GET waits once, at the call of YouTube, and other requests run
--     meanwhile: it is `begin` up to the call and `finish` from the response on, and `get` is the
--     two with nothing in between. Interleavings lets requests, responses and the clock step in
--     any order over one cache. Escapes, References, Bounds, Keys, Results, Replies, Keeps,
--     Entries and Provenance prove.
--   Bot: discord-jockey/src. Slug is getSessionId, Sessions is discord/sessions.ts, Logger and
--     Effects are util/logger.ts and util/helpers.ts, Auth is connect/auth/auth.ts, Commands is
--     discord/command without play.ts, Playback and Play are play.ts, and Play has the dispatcher
--     of discord.ts. A handler is a function from a world to an outcome and a world. The world
--     has the table of sessions, the log, the messages that were sent, and a state of everything
--     outside. Playback has the variables that the closures of startPlayback share, and their
--     listeners; an event is handled in one step. Registration is registerCommands of discord.ts.
--     Keeping has what a chain of such steps keeps of the table, and Isolation, with its children,
--     what an interaction and an event leave alone. Threads has
--     the handlers once more, in Auth, Commands and Play, as threads that stop at each await; its
--     System is the bot as a step relation, in which interactions, answers to calls and events of
--     playbacks come in any order over one table. Sequential is about a thread that runs alone,
--     Contract about what a thread may do and how often it waits, and the children of System are
--     about its runs. SessionIds, Tables, Streams, Starts, Absence,
--     Playing, Sending, Answers, Tokens and Stopping prove.
--   Web: Errors is web/src/lib/errors.ts. Format is web/src/lib/format.ts on times from 1970 on,
--     with the UTC fields of a `Date` computed by the Gregorian calendar; Timestamps and Calendar
--     prove. Machine says what a page is: a handler is `act` up to its first await and `resume`
--     behind one, `enabled` is what the markup allows, `pending` are the calls that have not
--     settled, and a step is an event or an answer to any of them; Machine/Runs has what holds
--     along every run, Machine/Settling how waits end. Sets is the `Set` of keys
--     whose buttons wait. The pages: YouTubeSearch is
--     web/src/lib/components/YouTubeSearch.svelte with its form and buttons, Station is
--     web/src/routes/stations/[sessionId]/+page.svelte without its audio player, which is Player,
--     Create is web/src/routes/stations/create/+page.svelte, Admin is
--     web/src/routes/admin/+page.svelte with `localStorage`, Pages has the pages with one call
--     and the small components, and Archive the link to an archive and the page that it opens.
--     StationPage is that page as a whole: the station with the player and the panel in it, whose
--     calls of `onAdded` fetch the queue. Served puts the panel in front of the endpoint of
--     Search. Their child modules prove.
--   Examples, in Search, Bot and Web, apply the theorems to concrete inputs, with the data of
--     Fixtures.
--
-- Parameters. Code outside of the repository is an argument of the definitions that use it: for
-- Search, `toLowerCase`, `JSON.parse`, what objects inherit from `Object.prototype`, the API key,
-- the clock and the answers of YouTube; for Web, `toLowerCase`, the router
-- and the answers to calls; for Bot, the methods of the server, the delivery of messages and of the
-- table of commands, voice connections, HTTP requests, the signing of nonces, and `meanwhile`, what
-- other handlers do to the table of sessions while a call is awaited.
--
-- Termination. All definitions are structural recursions. Two of them are on fuel: `decimal` has
-- one more than the number, which loses a digit in each step, and `split_year` has the number of
-- days over 365, as no year is shorter; the theorems on them need no assumption on the fuel.
--
-- Not modelled: the Go server, which is behind the methods of the service; static markup and styles
-- and the calls of playhtml; the construction and the
-- login of the bot's client; generated declarations, configuration and the printing of log lines.
pub mod Base
pub mod Proto
pub mod Bot
pub mod Search
pub mod Web
