-- ===== src/Lib.antt =====
-- callfxo is a gateway between telephone lines and browsers or phones. FXO boxes register with its SIP
-- service; users sign in over HTTP, dial out through a box, and are rung when a call comes in on one.
--
-- Store, of internal/store/store.go, is the SQLite database: tables are lists of rows in the order of
-- insertion, a statement is a function on the tables, and the engine may fail on any statement, which the
-- list `faults` of the state says. The one transaction, of DeleteUser, rolls back where the code does; what
-- a COMMIT that fails leaves is the engine's choice, taken from `faults`. Ids are signed integers, times
-- Unix seconds.
--
-- Call, of internal/call/manager.go, is the call manager. What Go holds by pointer stands in the heaps
-- `sessions` and `invites` at a number, and the maps hold the numbers, so that two of them may share an
-- object. A function that holds a mutex is one step; AcceptIncoming is two, `accept_begin` and
-- `accept_finish`, since it releases the lock of the invite in between; what others do during the second is
-- not modelled. StartCall holds no mutex and is one step here, too: of what runs beside it, only the failure
-- of the peer connection right before registerCall is modelled, which is the argument `peer_fails`. What the
-- code does to dialogs, sockets, browsers and the notifier is recorded in `trace`. What the SIP and WebRTC
-- libraries and the network do is an argument: `MediaOutcome`, `InviteOutcome`, `AcceptWorld` and
-- `DialWorld`.
--   Sdp: parseSIPAudioTarget, parseWebRTCAudioPCMUPayload, findPCMUPayload, sanitizeSDPAddress
--   Registry: GetUserCall, IsBoxInUse, ListPendingIncoming, registerCall, unregisterCall
--   Session: createWebRTCSide, OnConnectionStateChange, close, Hangup, onRemoteBye
--   Media: forwardWebRTCToSIP, forwardSIPToWebRTC
--   Invite: finishInbound, rejectWithResponse, RejectIncoming, the timer and the end of the dialog
--   Inbound: AcceptIncoming
--   Ringing: onIncomingInvite
--   Outbound: StartCall
--
-- Sip, of internal/sipx/service.go, is the SIP service: Tokens has digests, expiries, addresses and DTMF,
-- Nonces the challenges, Register REGISTER, Identity extractCallerID, and Invite the match of an INVITE with
-- a registration. The parser of the Authorization header and MD5 are parameters. It reads and writes the
-- tables of Store, and hands an INVITE to `on_incoming_invite` of Call.
--
-- Auth, of internal/auth/session.go, has the access tokens of the HTTP server: Create, Validate, the guards
-- RequireAuth and RequireRole, and ExtractToken. HMAC, base64 and JSON are the record Codec, with what is
-- used of them in IsCodec.
--
-- Config, of internal/config/config.go, has the settings with Default, Load, Save and Ensure. YAML is the
-- parameter `Yaml`, and what the file system answers is the record `Disk`. Push, of
-- internal/push/service.go, has PublicConfig, ClientEnabled and CanSend. Startup, of main.go, has isFreshDB,
-- ensureSessionSecret and bootstrapAdmin.
--
-- Web, of internal/web/server.go, is the HTTP server. A handler is a function from the request and the store
-- (or the manager of the calls, which holds it) to a response and the state that it leaves; `Site` has the
-- settings and what bcrypt, SHA-256 and the codec answer, `World` the clock and the random tokens of one
-- request.
--   Http: requests, responses, cookies, the checks that the handlers share
--   Values: hashToken, the normalisations, publicWebRTCConfig, buildTURNCredentials
--   Sessions: handleLogin, handleRefresh, handleLogout, handleMe, issueDeviceSession
--   Accounts: the handlers of users and passwords
--   Boxes: the handlers of FXO boxes and permissions
--   Listings: the handlers of boxes, calls, contacts, push tokens and pending calls
--   Events: the open WebSockets, sendBoxSnapshot, notifyIncomingWS, notifyIncomingPush
--   BoxStatus: boxStatusLoop
--   Signaling: handleWS, one message of a connection at a time, against the manager of Call
--   Router: Router, with RequireAuth and RequireRole in front of the handlers
--
-- Text has the functions of the package strings that the parts use, on lists of code points, with the letter
-- case of ASCII; Prelude has Boolean tests, signed integers, Go maps as association lists and the rows of a
-- table.
--
-- Bounds: integers that may wrap around do so in the model, as the offset of a page and the expiry of a
-- registration. The functions with fuel are `hex`, with 16 digits, and `decimal`, with 20, which is what 64
-- bits need; they write out `%08x` and `%d` of the package fmt. Every other function recurs on its list.
--
-- Not modelled: sockets and RTCP, the schema migrations, the binding of JSON by gin, static files and the
-- script for Firebase, the pings and deadlines of a WebSocket, the delivery of a push message, the wiring in
-- main, and the clients.
pub mod Prelude
pub mod Text
pub mod Store
pub mod Call
pub mod Sip
pub mod Auth
pub mod Web
pub mod Config
pub mod Push
pub mod Startup
