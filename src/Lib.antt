-- ===== src/Lib.antt =====
-- marshal-pm's dashboard, the browser application under web/src: its links, its calls of the
-- server, and the state and handlers of its pages.
--
-- The parts and their files:
--   Base: shared types, Boolean tests, lists, and JavaScript's strings and exceptions. A string is
--     the list of its code points, an `async` function or one that may throw a value `returned a`
--     or `threw message`. Uri is the language's encodeURIComponent, decodeURIComponent and
--     URLSearchParams.
--   Router: web/src/router.ts and web/src/lib/nav.ts. The hash is matched by its segments.
--   Api: web/src/api.ts, in Api/Types (its types), Api/Fleet, Api/Apps, Api/Creds, Api/Files,
--     Api/Notif and Api/Errors, one function for each exported one. The server and the browser's
--     `fetch` are one parameter, a function from a request to a response or a rejection.
--   Status, Fleet, Format, LogFilter: web/src/lib and web/src/components/StatusGlyph.tsx.
--   LogStream: web/src/hooks/useLogStream.ts. LogViews: web/src/LiveLogModal.tsx,
--     web/src/LogPanel.tsx and web/src/LogView.tsx, over the hook's state.
--   LogStore: internal/logstore/store.go and internal/dashboard/logs.go, the stored lines that the
--     hook's polls are answered from. LogStore/Follow runs both: insertions, polls and lost polls,
--     each answered before the next; LogStore/Overlap lets polls overlap and replies be late.
--   LogServer: internal/server/logstores.go with the handlers of internal/dashboard/logs.go, from
--     the labels of a process to the replies that its page shows.
--   Ui: web/src/components (StatusMessage.tsx in Ui/Notice, Controls.tsx and ConfirmDialog.tsx and
--     web/src/ErrorBoundary.tsx in Ui/Controls, Modal.tsx in Ui/Modal), and
--     web/src/ControlButtons.tsx and web/src/RestartAllButton.tsx in Ui/Buttons. Ui/Ledger has
--     Cluster.tsx, Ledger.tsx and EmptyState.tsx.
--   Overview: web/src/Overview.tsx, its figures, sections and rows, and the series of the metrics.
--   Connect: web/src/ConnectAgentModal.tsx. Charts: web/src/Sparkline.tsx, web/src/MetricChart.tsx
--     and web/src/components/BarSparkline.tsx.
--   Browser, AddApp, Creds, Notif: web/src/FileBrowser.tsx, web/src/AddAppModal.tsx,
--     web/src/Credentials.tsx and web/src/Notifications.tsx.
--   Session: web/src/App.tsx, web/src/Login.tsx, web/src/AppShell.tsx, web/src/UpdateBanner.tsx, and
--     the fleet poll of web/src/Overview.tsx.
--   Detail, Errors, Logs: web/src/ProcessDetail.tsx, web/src/Errors.tsx and web/src/Logs.tsx.
--   Samples: the data of the examples, which stand in the modules named Tests.
--
-- A page's `useState` variables are the fields of a record, and each of its handlers a function on
-- the record. A handler that waits for a call is split where it waits: what it does before, and
-- what it does after with the outcome of the call, so that another handler may run in between. A
-- rejected call ends its handler, as an `await` that throws does. The handlers of the pages call
-- the functions of Api, and report through Ui/Notice.
-- The modules named View, Page, Sections and Markup say what a page shows of its state: the texts,
-- classes, inputs and buttons, in the order of the page.
--
-- Numbers that the program only counts with are ℕ; `open_fds` is absent where the server sends -1.
-- Fractions are a parameter, `Floats`, with no law assumed. Regular
-- expressions that a user types, and lower case, are parameters of LogFilter. `String(number)` is a
-- parameter of Notif/Settings, and `String(error)` of Errors and of Connect. A log buffer holds 5000
-- lines, as in the source. The digits of a number are found on fuel, one more than the number, which
-- has fewer digits (Base/Digits).
--
-- Row ids are ℕ: they begin at 1, and the database gives the next one. `LIKE` of the database and
-- Go's `strconv.Atoi` are parameters, as are the local clock and, for the views'
-- scrolling, the assignment to `scrollTop`, of which one theorem assumes that it is clamped.
--
-- Not modelled: styles and the parts of the markup that show no state, what the browser draws, the
-- order in which React runs renders between two handlers, the server in cmd and internal but for
-- the log store and what answers from it. A poll of Follow is answered before the next one is sent;
-- the source does not wait for that, which Overlap takes into account. The labels of a process are
-- fixed in both, and the server finds them anew at every poll; in LogServer the query for the labels
-- and the one for the lines see the same table. The fallbacks of web/src/ProcessDetail.tsx for a
-- bucket without its maxima are left out, since its type has them.
pub mod Base
pub mod Uri
pub mod Router
pub mod Api
pub mod Status
pub mod Fleet
pub mod Format
pub mod LogFilter
pub mod LogStream
pub mod LogStore
pub mod LogServer
pub mod LogViews
pub mod Connect
pub mod Overview
pub mod Charts
pub mod Ui
pub mod Browser
pub mod AddApp
pub mod Samples
pub mod Creds
pub mod Errors
pub mod Logs
pub mod Session
pub mod Detail
pub mod Notif
