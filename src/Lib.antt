-- ===== src/Lib.antt =====
-- A verification library for port-forwarder, a daemon that forwards TCP ports by rules.
--
-- The program. The daemon (main.go) keeps a set of rules in the engine (internal/engine/engine.go).
-- A local rule has a listener of its own, whose accept loop relays each connection to the target
-- (internal/forward/forward.go). A remote rule is handed to a backend, an interface that the engine
-- calls: the tunnel client (internal/tunnel) or the SSH manager (internal/ssh). A backend calls the
-- engine back with a report on a rule. The REST API (internal/api/api.go) calls the engine's
-- methods, and the rules are kept in a file (internal/engine/store.go).
--
-- The files.
--   * Base: the names that are shared: lists over the native numbers, Go's 64-bit int with its
--     wrap-around (Base/Int), strings as lists of bytes (Base/Text), maps with string keys as
--     association lists with one entry for a key, in the order that a `range` loop visits
--     (Base/Map), and stateful code that may panic or never return (Base/Prog).
--   * Decimal: `fmt.Sprintf("%d")`, `strconv.Atoi` and the verb `%d` of `fmt.Sscanf`.
--   * Net: listeners. The operating system is a function that says which address the i-th call of
--     `net.Listen` binds, or that it refuses; an address in use is refused in any case.
--   * Engine: the state of internal/engine/engine.go, a record with the struct's fields, the mutex,
--     the network, the stop channels made and closed, the accept loops started, and the calls of
--     the error handler. Locking a mutex that the goroutine holds never returns, and closing a
--     channel twice, or a nil one, panics. Engine/Queries has `UpdateRemoteStatus`, `Get`, `List`
--     and `Restart`; Engine/Methods has `Add`, `Remove`, `Update` and `Restore` over a backend that
--     is a parameter: a state, and for `AddRemote` and `RemoveRemote` a function that gives the new
--     state and the reports that are made before the method returns.
--   * Engine/Table: the engine as its callers see it, a table of rules with the calls that the
--     backend gets, in which an operation only changes entries. Engine/Refinement relates the two
--     for one operation in each child, and for a sequence of them in Engine/Refinement/Sequences.
--     Engine/Mirroring adds a backend that keeps a copy of the remote rules (Keeper).
--   * Engine/Accepting: `acceptLoop` as a relation between states, with any changes of the engine by
--     other goroutines between its steps, and `handleConn`. Engine/Accepting/Stopping is about the
--     loop of a rule that is stopped.
--   * Engine/Soundness, with Engine/Numbering and Engine/Sockets: the invariant. The mutex is free;
--     the rules stand under their own IDs, which are decimals of positive numbers below the
--     counter; each listener is open, and has a stop channel of its own that is not closed; only a
--     local rule has a listener, and a local rule that is shown as running has one.
--   * The other children of Engine: what each method does to a sound engine (Engine/Refusing and
--     Engine/Rebinding: `Restart` when an address is refused, and when all can be bound). IsQuiet, of
--     Engine/Reports, is what the theorems on remote rules ask of a backend: before `AddRemote`
--     returns it reports nothing but success on the rule that is added, and `RemoveRemote` reports
--     nothing. Engine/Racing has two goroutines in `Add`.
--   * Files: a JSON file that holds a list of structs with string fields, as far as encoding/json
--     tells such files apart, and the disk: which calls succeed is a function of the number of the
--     call, and a write that fails may leave the file with any content.
--   * Engine/Store: internal/engine/store.go, whose `List` is `load_rules` here and whose `Save` is
--     `save_rules`. Engine/Store/Revival has `saveRules` of internal/api/api.go and the start of
--     the daemon in main.go.
--   * Ssh/Credentials: internal/ssh/credentials.go. The store's methods are atomic, as each holds
--     its mutex throughout. Ssh/Credentials/Saving has the invariant: the map holds each credential
--     under its ID, and no ID has a number above the counter.
--   * Ssh/Client: internal/ssh/client.go. `Run` is what it does when a dial succeeds (`connected`) or
--     fails (`fail_all`), when the connection drops (`dropped`), and when the context ends
--     (`cancelled`); what the SSH server answers is a parameter.
--     Ssh/Client/Running has the goroutine of `Run` as a step relation, one section under the mutex at
--     a time, with the sections of the other methods between them; Ssh/Client/Running/Whole has
--     `connected`, `dropped` and `Shutdown` as runs of its steps. Ssh/Client/Accepting has the accept
--     loop of a listener, and `relay`.
--   * Ssh/Auth: internal/ssh/auth.go. The key files, the parser of keys and the agent are a
--     parameter.
--   * Ssh/Manager: internal/ssh/manager.go, over the credential store and the clients. What the SSH
--     servers answer is a parameter. Ssh/Manager/Serving says when the manager's maps agree;
--     Ssh/Manager/Backend has the manager as the engine's backend, as in `runLocal`.
--   * Relay: `Relay` of internal/forward/forward.go as two pipes that move in any order, with
--     `sync.Once` and the wait group. A pipe is in `io.Copy` until it is scheduled for the first
--     time, so that a copy may end at any time. Relay/Invariant says what holds at every moment.
--   * Net/HostPort: `net.SplitHostPort` and `net.JoinHostPort`, with `dataAddr` and `normalizeHost`.
--   * Tunnel/Protocol: the control messages and the handshake line of a data connection,
--     internal/tunnel/protocol.go.
--   * Tunnel/Session: the session of a tunnel client, internal/tunnel/server.go. `openData` is
--     `dial`, up to the write of the open frame, and `finish`, from there on; what comes between
--     them is any sequence of events (Tunnel/Session/Ending).
--   * Tunnel/Server: the server with its sessions, which share the network: `NewServer`, `Serve`,
--     `Close` and `Clients`, and the steps of its goroutines in any order.
--   * Tunnel/Client: internal/tunnel/client.go. `Run` is a step relation, in which `Add`, `Remove`
--     and `connect` are one step each. Tunnel/Client/Opening has `handleOpen`, and
--     Tunnel/Client/Meeting puts it together with the server's `openData`.
--   * Wiring: `normalizeAddr`, `clientBackend` and the callbacks of `runClient`, in main.go.
--     Wiring/Local has the choice that `main` makes, and `runLocal` and `runClient` behind their flags,
--     up to the web server, with `serveAdminWeb`.
--   * Api: the handlers of internal/api/api.go that create, change, delete and list rules, on the
--     engine and the store. A handler gets the decoded body of a request, or none. Api/Vault has
--     the handlers of the credentials, with the key files of `SaveKey`: those that only use the
--     store, and those that call the engine and the manager. Api/Requests is the part of `Handler`
--     that routes the requests that list, make, change and delete rules. Api/Contract is what these
--     requests promise, with no word of how the daemon is built: a table of rules, a file of rules,
--     and the reactions to each request.
--   * Tests: the theorems at concrete inputs.
--
-- Bounds and fuel. The only fuel is that of `emit` in Decimal, which is the number that is printed:
-- a number has no more digits than that. `List` counts up to the counter, which the theorems take to
-- be below the largest int; at the largest int Go's loop has no end, and so the model does not
-- return. A pipe of a relay has five moves to make.
--
-- Not modelled: the bytes that a relay copies, and what a target does with them; interleavings of
-- the engine's methods other than the one of Engine/Racing, as a method holds the mutex or is stated
-- alone; the bytes of the files; the SSH library; flags, signals, the HTTP server, the
-- other routes, `runServer` and the web pages, which are glue around the parts above; `encodeFrame`, which nothing calls. A `*Rule`
-- that a caller keeps after the rule is removed is not followed. Strings are taken to be valid UTF-8
-- where they go through JSON.
pub mod Base
pub mod Decimal
pub mod Net
pub mod Engine
pub mod Files
pub mod Ssh
pub mod Api
pub mod Relay
pub mod Tunnel
pub mod Wiring
mod Tests
