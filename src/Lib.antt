-- ===== src/Lib.antt =====
-- Hyprland Computer Use lets MCP clients see and control windows of a Hyprland desktop. The local
-- user decides, in a console, which client may do what. The parts that decide who may act are
-- modelled here, with the console's commands, and the parts that act: input, screenshots,
-- recordings, the virtual keyboard's Wayland client and the HTTP endpoint.
--
-- * The permission broker (internal/app/broker.go, internal/app/sharing.go) keeps the grants and
--   the requests of the clients. A client's tool call asks `permit`; the console approves a request
--   (`decide`), shares a window of its own choice (`beginShare`, `selectShare`), revokes, pauses or
--   changes the mode (`handleUI`); `maintenance` removes what has expired. A grant to control a
--   window is also a lease of the compositor's guard, and a revocation that the guard did not
--   confirm stays in a queue that closes the broker.
-- * The OAuth provider (internal/app/oauth.go, internal/app/oauth_refresh.go) lets a client of the
--   HTTP endpoint connect: it registers, its authorization waits for the local user, and codes,
--   access tokens and refresh tokens follow. A connection gives no grant: its ID becomes the
--   broker's client.
-- * The console (`handleUI` and `state`) sends its commands to both, and shows what waits for the
--   user, what is granted and which windows are marked.
-- * `windowState` (internal/app/window_state.go) checks the compositor's description of a window.
-- * `input` (internal/app/desktop.go) checks a batch of actions as a whole, asks the broker, and
--   sends the requests to the guard one by one, each after a new look at the permission. The checks
--   of pointer fields are in internal/app/pointer.go, those of a text in internal/app/text.go.
-- * `observeWithOptions` (internal/app/observation.go) takes a screenshot of a window, with `guard`
--   and `captureWithOptions` (internal/app/desktop.go) and the crops of
--   internal/app/capture_options.go; `record` (internal/app/desktop.go) takes one each 200 ms.
-- * The Wayland client (internal/app/keyboard.go) creates the virtual devices, or only watches that
--   the compositor lives; its keymap (internal/app/keyboard_keymap.go) has the keys that `keySpec`
--   and `runeKey` name.
-- * The HTTP gateway (internal/app/http.go) bounds the peers and checks hosts and origins.
--
-- Files. Base.antt and its children hold what both parts use: tests on numbers, Go maps as
-- association lists, text, signed integers. Broker/State.antt has the broker's data, Scope.antt
-- `validScope`, `grantMatches` and `allowedLocked`, Permit.antt `permit`, Cleanup.antt
-- `cleanupGuard` and `retryRevocations`, Revoke.antt the revocations, `disconnect` and
-- `maintenance`, Decide.antt `decide`, Share.antt sharing.go, Supervise.antt the console's
-- commands and the registration of a client, and Run.antt the machine of all critical sections.
-- The other files of Broker/ hold specifications and proofs: Access, Permit/Laws, Approval,
-- Effects, Epoch, Invariant and Closed, and Examples the instances. Oauth/State.antt has the
-- provider's data and `cleanupLocked`, Client.antt `register`, Authorize.antt `authorize`,
-- `continueAuth` and `decide`, Exchange.antt and Token.antt `token`, `authenticateClient`,
-- `verify` and `revokeToken`, Refresh.antt `refreshToken` and `revokeConnection`, Limit.antt
-- `rateLimit`, Registry.antt `validateOAuthClient` and the reading of the registry, and
-- Machine.antt the machine of the critical sections. The other files of Oauth/ hold specifications
-- and proofs. Console.antt has the dispatch of `handleUI` and Console/View.antt both functions
-- `state`; Surfaces.antt is `windowState`, with its specification in Surfaces/Laws.antt.
-- Actions.antt has `validateText` (internal/app/text.go) and `pointerModifiers`
-- (internal/app/pointer.go); Actions/Keys.antt has `keySpec` and `runeKey`, Actions/Keymap.antt
-- the table of `keyboardKeymap`, and Actions/Typing.antt and Actions/Mapped.antt relate them.
-- Input/Guard.antt is `guard`, Pointer.antt the actions and the checks of their pointer fields,
-- Check.antt those of every action, Deliver.antt the sending of a batch, and Run.antt `input`; the
-- other files of Input/ hold specifications (Plan.antt, Prepared.antt, Decoded.antt) and proofs.
-- Capture/Options.antt has the options of a capture, Grab.antt `captureWithOptions` and
-- `cropImage`, Observe.antt `observeWithOptions`; Recording/Start.antt the start and the end of a
-- recording and its tools, Recording/Frames.antt its loop. Wayland/Wire.antt has the wire format,
-- Event.antt `event`, Start.antt `initWaylandConnection`; the other files of Wayland/ hold proofs.
-- Http/Origin.antt has `httpOrigin`, the start of the gateway and the filter of requests,
-- Http/Peers.antt the machine of the gateway's peers; Http/Guarded.antt relates the first three.
-- -- Tools.antt has `inputTool` (internal/app/observation.go) and tools of internal/app/tools.go,
-- Input/Fields.antt the presence checks of `UnmarshalJSON`. The files called Examples hold the
-- instances.
--
-- How the code is read. A handler becomes a function from the state to the answer and the new
-- state. A critical section is one step, with one reading of the clock. A handler with several
-- sections takes, as an argument, a function for what other goroutines do between them; the
-- machines instead interleave the sections of any number of goroutines. A Go map is an association
-- list, so a theorem on every list is one on every order of iteration. A pointer that is compared
-- by identity carries the number of its allocation. Times are nanoseconds; the 64-bit counters
-- wrap around. The capability "record" is the constructor `recording`, and any other unknown text
-- is kept in `other`. What comes from outside is an argument: fresh IDs and secrets (or their
-- failure), the compositor's windows, the guard's replies, whether the client registry could be
-- written. The record `Library` of Oauth/State.antt holds the digest, the PKCE transformation, the
-- parsing of percent-encoding, as functions of which nothing is assumed; `Floats` of Surfaces.antt
-- holds the tests on floating-point numbers, `Imaging` of Capture/Grab.antt the image packages,
-- `Addresses` of Base/Addresses.antt `url.Parse`, `net.SplitHostPort` and `net.ParseIP`, whose
-- results the program tests; of these nothing is assumed either. The guard, grim, hyprctl and
-- ffmpeg give replies that are arguments: the `Turn` of Input/Deliver.antt is what happens at one
-- request, and the `Tick` of Recording/Frames.antt what happens at one frame, the changes that
-- others make to the broker included. A log of what was sent or written stands in the state, with
-- the broker that each check saw, so that theorems can speak of it. A Wayland connection is the
-- list of the messages that the compositor will send.
--
-- Bounds and fuel. The maps' bounds are those of the code: 100 requests, 100 audit entries, 256
-- clients, 16 pending authorizations, 64 codes, 256 access tokens, 128 surfaces, 64 related
-- windows, 128 actions, 48 characters in a request, 64 peers, 32 recordings. There is fuel in
-- `sprint`, for the digits of a number: one more than the number is enough, since each step
-- divides it by ten; and in `chunks`, for the chunks of a text: its length is enough, since each
-- chunk takes a character at least (Input/Chunks.antt).
--
-- Not modelled: the reading and writing of files, sockets and HTTP bodies, the texts of errors and
-- pages, the copy of the audit in a log file, the input modes of marked windows, the JSON decoder
-- (the checks of `UnmarshalJSON` of internal/app/pointer.go are made of decoded fields), the
-- arithmetic that resamples pixels, the printing of the keymap's text, the tools that launch a
-- program, tell the status or only pass their arguments on, the tray, the setup and the command
-- line. Of `startHTTP` the loading of the certificate, the opening of the listener and the making
-- of the OAuth provider are left out, which can only stop it. In a reason that is cut at 400
-- bytes, a character that is cut in two is left out. A redirect's answer lists the query
-- parameters that the provider sets but the error's description. The flag that `clearLocked`
-- returns is not modelled, as no caller reads it. A write to the Wayland connection does not fail
-- but for the size of a request. The resending of an instance ID by `guardExchange` is not
-- modelled.
pub mod Base
pub mod Broker
pub mod Oauth
pub mod Surfaces
pub mod Console
pub mod Actions
pub mod Input
pub mod Capture
pub mod Http
pub mod Tools
pub mod Recording
pub mod Wayland
