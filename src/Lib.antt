-- ===== src/Lib.antt =====
-- webhook-telegram-proxy receives webhooks of Grafana or Alertmanager over HTTP, keeps each as a row of
-- an SQLite table until it has been delivered, and sends it to a Telegram chat, in several messages where
-- it is long. A webhook whose fingerprint has a row already is not stored again. A background loop retries
-- deliveries that are due and deletes old rows when the file grows.
--
-- Parts of the program and the files that model them (paths from the repository's root):
--   internal/models/grafana.go              Models
--   internal/config/config.go               Config (the record and its predicates), Config/Urls, Config/Validate
--                                           (Validate), Config/Parse (Parse)
--   internal/store/sqlite.go, migrations.go Store/Record (row, states), Store/Queries (the SQL statements as
--                                           functions of the table), Store/Changes (what they change
--                                           in a row), Store/Methods (the methods of Store)
--   internal/service/delivery_service.go    Service/Delivery (ProcessEventByID, ensureRenderedParts,
--                                           handleSendError, RecoverPending), Service/Backoff,
--                                           Service/Rotation (EnsureCapacity, RotateStore),
--                                           Service/Messages (buildMessages), Service/Splitting
--                                           (splitMessage, buildPassthroughMessages), Service/Run (Run)
--   internal/service/alert_service.go       Service/Alerts (AcceptWebhook, loadAcceptResult),
--                                           Service/Fingerprint (ComputeFingerprint, stableMapString)
--   internal/template/renderer.go           Template (the data, CloneWithAlerts), Template/Sanitize (sanitize,
--                                           icons), Template/Durations (times), Template/Labels (labels,
--                                           links), Template/Build (BuildData)
--   internal/telegram/client.go             Errors (APIError), Telegram (its data), Telegram/Redact (redact),
--                                           Telegram/Connect (NewHTTPClient), Telegram/Send (SendMessage)
--   internal/http                           Http (requests, the writer), Http/Guards, Http/Handlers,
--                                           Http/Middleware, Http/Router
--   cmd/server/main.go                      Startup (main up to the start of the server)
--
-- How the code is carried over. A Go method is a function from a world to a result or an error and the next
-- world (Runtime). The world holds the table, the texts that the Telegram client reported as accepted, the
-- number of calls made of outside code and the metrics that were reported. (Where an answer is lost or cannot be
-- read, the client reports an error although Telegram may have accepted the text; the code sends it again.) What outside code answers is a field of Env at the
-- number of the call, so that each call may be answered differently: errors of the SQLite driver, the clock,
-- whether the caller's context is done, the Telegram client, os.Stat, the random source, the JSON decoder,
-- SHA-256, the execution of the template. Each statement runs by itself on the whole table: the code keeps
-- one connection, and the rotation holds a lock. Errors are data, with what wraps what (Errors). A text is
-- the list of its runes; ids and labels, which are only compared, are native strings. Times are nanoseconds
-- in UTC on natural numbers; the configuration is read and validated on integers, and the services use its
-- natural numbers. The backoff and the retention windows are 64-bit integers with their wrap-around written
-- out.
--
-- Loops. The loop over the parts, over the due ids and over the chunks are structural. splitMessage has as
-- many rounds as there are characters, and one more: each round shortens the rest. DeleteByEventIDs has a
-- round for each id, since each round takes at least one. RotateStore has a round for each row, and one
-- more: each round deletes a row. AcceptWebhook calls itself again only where the row it inserts meets one
-- that came in between; the calls it may make are a parameter, and running out of them is an error of its
-- own.
--
-- HTTP. A handler maps a request, the response writer and the world to how it ends, the writer and the world.
-- The writer is the connection with the recorders that wrap it. What the request and the response are not
-- read for is left out.
--
-- Parameters. The letters of the unicode package, the formats of times, the display location and the clock at
-- each alert are what BuildData uses (Display); url.Parse and %q (Urls), time.LoadLocation and
-- time.ParseDuration (Libraries) and the flag parser are what the configuration uses; the HTTP exchange, JSON
-- and http.StatusText (Net) are what the Telegram client uses; mime.ParseMediaType, SHA-256 and random bytes
-- (Site), and what the ServeMux does where no route matches, are what the server uses.
--
-- Not modelled: the encoding of a row as SQL values and JSON, the text of the DSN, reading and parsing the
-- template file, the settings of the HTTP transport, logging, the registration of metrics, signals and the
-- shutdown of the server. A store method that fails changes nothing: SQLite's statements are atomic.
--
-- Files that prove: Runtime/Keeps (what no operation breaks, by a ruleset), Runtime/Quiet (runs in which
-- the driver answers), Runtime/Gives (what holds where a method returns), Store/Rows, Store/Locality,
-- Store/Unique, Store/Select and its child Oldest, Store/Claims, Store/Batches; below Service/Delivery:
-- Locality, Settling, Throttling, Progress, Attempts, Processing, Exact, Delivered, Batch, Recovery,
-- Lifecycle; below Service/Rotation: Parts, Safety, Kept, Rounds; below Service/Splitting: Trimming, Parts,
-- Passthrough; below Service/Messages: Packing, Built, Fits; below Service/Fingerprint: Order, Ambiguity;
-- below Service/Alerts: Unique, Duplicates; Template/Sanitize/Plain, Template/Durations/Markup,
-- Template/Labels/Plain and Template/Build/Plain (markup); Config/Bounds, Config/Sound and its child
-- Checks; Telegram/Redact/Hidden, Telegram/Connect/Made, Slashes and Guarded, Telegram/Send/Secret, Made
-- and Labels; Http/Writing (the status that goes out), Http/Guards/Access and RequestIds,
-- Http/Handlers/Health, Http/Middleware/Recovery, Http/Router/Layers and Admin; Startup/Ready. Tests and
-- what is below it hold runs on concrete inputs.
pub mod Prelude
pub mod Errors
pub mod Models
pub mod Config
pub mod Template
pub mod Store
pub mod Runtime
pub mod Service
pub mod Url
pub mod Telegram
pub mod Http
pub mod Startup
pub mod Tests
