-- ===== src/Lib.antt =====
-- Shuvtunnel gives a program behind a firewall a public TLS hostname. A client keeps a WebSocket, the
-- bridge, to the server; the server hands public TLS connections to the bridge by their SNI, still
-- encrypted. This library models the server's tunnel object, the parts of the protocol that the server
-- and the TypeScript client share, and the client's tunnel, sessions, storage and provisioning.
--
-- The parts, and how they meet:
--
-- * `Frame` is the binary frame of packages/protocol/src/bridge-protocol.ts (parseDataFrame,
--   buildDataFrame) and the loop of sendData in packages/client/src/effect/tunnel.ts, which cuts data
--   into frames. `Protocol` has the control messages of the same protocol file, as the server builds
--   them and as decodeServerMessage reads them, over the parsed values of `Json`.
-- * `Hello` is parseClientHello of packages/server/src/tls-client-hello.ts: `Hello.Records` gathers the
--   handshake from TLS records, `Hello` itself reads SNI and ALPN, `Hello.Reader` is the access to
--   bytes, where a read outside the array is a result of its own.
-- * `Names` is packages/protocol/src/names.ts: labels, routeForSni, parseTarget.
-- * `Store` is what a tunnel keeps in storage: packages/server/src/stored-tunnel.ts, with
--   packages/protocol/src/certificate.ts and packages/protocol/src/tunnel.ts.
-- * `TunnelObject` is packages/server/src/tunnel-object.ts, the Durable Object of one tunnel. `World` is
--   its state: the stored record, the alarm, the bridge sockets with what was sent on them, the channels
--   of public connections, the connection sequence, and the workflow calls made. `Registry` has
--   initialize, info, certificate and remove; `Certificates` updateCertificate, alarm and renewals;
--   `Binding` bindCertificate; `Bridge` fetch and the WebSocket handlers, with the attach message in
--   `Bridge.Attach`; `Relay` connect and its upload loop. `Steps` puts the handlers together as the
--   events of one object, and `run` is a sequence of them.
-- * `Gateway` is the part of packages/server/src/index.ts that finds the tunnel of a public connection:
--   tunnelIDFromHostname and the reading of the ClientHello in routeTcp.
-- * `Handlers` is packages/server/src/handlers/tunnel.ts: the HTTP API's answers and errors for the
--   results of the object.
-- * `Client.Running` is the class Tunnel of packages/client/src/effect/tunnel.ts, a machine whose phases
--   are the places where its loop waits; the hooks of its session are events. `Client` has the functions
--   of that file that keep no state (validateRoutes, sameNames, backoff).
-- * `Client.Session` is the classes Session and Channel of the same file: the socket with what was sent,
--   the store of channel objects and the map to them, the callbacks that wait, and the hooks called.
-- * `Client.Storage` is packages/client/src/effect/storage.ts: the interface, `memory`, and in
--   `Client.Storage.Disk` the files of `xdg`. `Client.Provision` is packages/client/src/effect/client.ts
--   on any such storage: create, resume, ensure and remove as actions with state and errors, and in
--   `Client.Provision.Connecting` the connect that starts a tunnel of `Client.Running`.
-- * `Common` has texts, lists and Boolean tests.
--
-- How the code is read:
--
-- * A handler of the object runs to its end before the next event; what other events could do at its
--   awaits is not modelled. In particular `connect` reads the record when the ClientHello is there, where
--   the source reads it first, and the record that bindCertificate and startRenewal save after a failed
--   workflow call is the one that they read before it, which events in between can make differ:
--   `TunnelObject.Pending` takes bindCertificate apart there.
-- * A text is the list of its UTF-16 code units; lower-casing and trimming are those of ASCII. Instants
--   are milliseconds since the epoch, so an ISO date string stands for the instant that it names.
-- * The digest of a token, JSON.parse, TextDecoder, the reader of a CSR, the clock, random identifiers
--   and the answers of the workflow binding are arguments of the definitions that use them.
-- * In `Relay`, a send on a bridge that is not open throws, as in the source. The handlers of the bridge's
--   own messages record their sends whatever the state of the socket is. The sequence of connection numbers
--   grows without bound and is taken modulo 2^32, as `>>> 0` does.
-- * The client's state is that between two turns of the event loop: a call with the microtasks that it
--   starts is one event. TLS contexts and the application's own event handlers are left out.
-- * The client's writes to files succeed and are done at once; reading may fail. JSON texts of metadata,
--   ISO dates, keys and the server's answers are arguments. The directory of a profile is looked up by its
--   name, so a name is taken to be one segment of a path, which the source does not check.
-- * The object writes its messages as literals in tunnel-object.ts; `server_json` gives the fields that the
--   schemas of bridge-protocol.ts name, which are the same.
-- * A channel of the object that is finished leaves the map; its number comes back only after 2^32 - 1 others.
--
-- Fuel: the record loop of `Hello` has one round for each byte of data, and each round takes a header of
-- five bytes; its loops over extensions and names have one round more than the bytes of the ClientHello,
-- and each round takes three or more; sendData has one for each byte, and a round takes one or more; the
-- search for a connection number has two more than there are channels: only their numbers and 0 are taken.
-- The client polls for its certificate without end; the model polls as often as its fuel says and then
-- answers that it waits, and fuel above the number of polls that the server needs is enough.
--
-- Not modelled: the certificate workflow (packages/server/src/certificate-workflow.ts), the schemas of
-- the HTTP API (packages/protocol/src/api), the pipes and the WebSocket relay of index.ts, TLS and
-- the sockets to the targets in the client's channels, profiles and list of its storage, its CSR encoder
-- and the promise client, the relay process, the website, the scripts, and the crates in Rust.
pub mod Common
pub mod Frame
pub mod Hello
pub mod Names
pub mod Json
pub mod Protocol
pub mod Store
pub mod TunnelObject
pub mod Gateway
pub mod Handlers
pub mod Client
