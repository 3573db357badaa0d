-- ===== src/Lib.antt =====
-- A model of grafana-mcp-setup, the server (Go, internal/server) that issues personal Grafana
-- service account tokens to users of an MCP client. A user's token is minted, delivered in a sealed
-- cookie, shown, replaced and revoked; two commands clean accounts up.
--
-- Go describes the functions of Go's library that the code uses: strings, strconv, base64, net/url
-- and time. Texts are lists of bytes; case and white space are those of ASCII. A time is its
-- nanoseconds since year 1, so that no time before that is described.
-- Exec describes functions that return `(T, error)`: explicit state passing over a state `S` of the
-- world. Errors are what errors.Is and errors.As see of them; their texts are shortened.
-- Fallible has those that read no state.
-- Grafana is grafana.go and grafana_legacy.go: `(*grafana).do` is Net.do_request, over a transport
-- `Net` that holds HTTP, JSON and SHA-256; Iam and Legacy are the two APIs, function by function, and
-- Client is the choice by `mode`. The page loops of Iam run on fuel, one unit for each page; Pages
-- has the condition for enough. The page loop of Legacy has the source's own bound.
-- Cookies is stash.go (Flash) and session.go (Session): sealed cookies and CSRF tokens over an AEAD,
-- a JSON coding and a message authentication code, which are parameters. `AeadLaws` is what
-- cipher.AEAD documents, taken without exception: the real cipher promises it up to what a computer
-- can find. Make has `newFlashCodec` and `newSessionCodec`, over crypto/aes, SHA-256 and HMAC.
-- Rotation is server.go's liveToken, prepareAndIssue, issue and revoke over the interface `Backend`,
-- whose operations are the client's, the locker's, the metrics' and the audit log's. Trace observes
-- these calls.
-- Lock.Local is lock.go's locker of one process: goroutines as a step relation over a heap of locks.
-- Lock.Kube and Lock.Lease are its Lease: HTTP, JSON, the clock and the text of times are the interface
-- `Kube`, of which `TimeLaws` says what the format with microseconds does. The loop of `Acquire` runs
-- on fuel, one unit for each round; nothing is said of a run that has too little. The renewal is one
-- function for each tick. Lock.Make is `newLeaseLocker`.
-- Reconcile is reconcile.go: the commands over the interface `Admin`, observed by Watched; Loop is the loop
-- over the tokens, and Plan what it selects.
-- Web is server.go's authentication, verification of requests and handlers, native.go, page.go and
-- assets.go: Identity, Origin and Mutation say who may ask and what; Oidc is `identity` with the
-- verification of ID tokens, for which go-oidc is a parameter, and Authentic what a known identity
-- goes back to; Handlers issues and revokes; Native is the login, the callback and the logout, over
-- golang.org/x/oauth2 as the interface `Oauth`, SignIn what a callback checks and Login what a
-- callback does with the state of a login; Page and Render are the two pages around the HTML
-- template, which is a parameter, and Show when a token is on one; Assets, Middleware, Ready and
-- Reason are the embedded files, the headers and request IDs, the readiness cache and the audit
-- record; Cached counts the checks of the readiness; New is `New`, over go-oidc. url.Parse is a parameter.
-- Config is `FromEnv` of config.go: Env reads variables and files, Load parses them, Check tests them,
-- in the source's order; the order in which Go ranges over a map is a parameter that visits each entry
-- once. Stages, Valid, Checked and Configured prove the bounds.
-- Command is cmd/grafana-mcp-setup/main.go: Flags is package flag as `runDryRun` uses it, Dry the
-- arguments without "apply", and Run the dispatch to the commands, with `serve` as a parameter.
-- Metrics is metrics.go: Record updates association lists for Go's maps, with the wrap-around of uint64
-- written out and float64 as the interface `Floats`; Writer is `statusWriter` with `wrap`, Exposition
-- the text; Counted, Labels, Labelled and Bounded are about the counters.
-- Snippet is highlight.go (Highlight) and formats.go (Formats): the painted configurations of the MCP
-- clients, on ASCII texts. The JSON painter and the loop over the quoted parts of a TOML value run on
-- fuel, the length of what is left, and each round takes a byte of it at least. Visible, Shown, JsonShown and Lines are
-- what a reader sees outside of the tags.
-- Tests applies the theorems at concrete inputs.
--
-- Deadlines and cancelled contexts appear as errors of the calls. The texts of the HTML template and of
-- the icons, the TLS setup of the Kubernetes client, and `serve` and `main` are not modelled: they call
-- libraries, start processes or hold text.
pub mod Prelude
pub mod Exec
pub mod Fallible
pub mod Config
pub mod Metrics
pub mod Command
pub mod Go
pub mod Grafana
pub mod Cookies
pub mod Lock
pub mod Rotation
pub mod Reconcile
pub mod Snippet
pub mod Web
mod Tests
