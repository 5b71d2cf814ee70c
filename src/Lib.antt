-- ===== src/Lib.antt =====
-- The tunnel between a hub and its spokes: tunnel-server on the hub
-- (hub/images/tunnel-server/src/main.rs) and tunnel-client on the spoke
-- (spoke/images/tunnel-client/src/main.rs), which speak the frames of
-- hub/images/tunnel-server/proto/tunnel.proto over one gRPC stream; and the hub's sysml-validator.
--
-- A client connects, answers the server's challenge with its id and token, and is entered in the
-- server's table of sessions. Then TCP connections that the server accepts become numbered streams,
-- whose bytes the client pumps to and from its targets; and HTTP requests that the client's proxy
-- takes go to the hub's kernel through the server, if their path is allowed.
--
-- Wire: the frames.
-- Server.Config: load_config and the parsers of TUNNEL_SPOKES and TUNNEL_ALLOWED_PATHS.
-- Server.Metrics: the state of Metrics, its registration (Register) and what touches it (Labels,
-- Server.Program.Touches). Server.Session: SpokeSession, with send and close.
-- Server.Handshake: connect, and the first part of handle_connection.
-- Server.Http: handle_http_request. Server.Receive: recv_loop, one function for each frame.
-- Server.Stream: the body of accept_loop and the two tasks of a stream, as the events of a live
-- connection. Server.Registry: the table of sessions, with the rest of handle_connection and
-- cleanup_session as the steps of interleaved tasks over a store of shared sessions.
-- Server.Listen: the binding of ports in handle_connection, and accept_loop over what its waits
-- give.
-- Server.Connection: handle_connection as a whole, for a task that runs alone. Server.Program: main,
-- and connect with the task that it spawns, for calls that do not overlap. Server.Ports: the
-- listeners of several connections, and the ports that they keep from each other.
-- Client.Config: load_config. Client.Proxy: SharedProxyState and handle_http_proxy, cut at
-- its waits. Client.Session: run_session and the loop over the hub's frames. Client.Pump:
-- run_stream.
-- Client.Endpoint: the set-up of the connection. Client.Live: a session with the proxy's handlers and
-- the pumps beside the loop over frames, any of which may come next. Client.Backoff: the waits of
-- main. Client.Program: main, over its configuration and all its sessions.
-- Tunnel: what holds of both programs together: the handshake (Login), a stream's bytes from the hub
-- to the spoke and back (Sent, Down, Up), its end (HalfClose), the ids (StreamIds), one HTTP
-- exchange (Exchange, HttpProxy); and the two ends of one session as a step relation, in which either
-- goes on by itself or takes the next frame of the other (System).
-- Validator: the service of hub/images/sysml-validator/src/main.rs, which judges SysML texts for
-- the hub's knowledge base by two checkers.
-- Common: text, maps, channels and results; Examples: runs at concrete inputs.
--
-- Stateful code passes its state; tasks that run side by side are events or moves in a list, so a
-- theorem over all lists covers all orders. Text is a list of code points, a map an association
-- list in any order, an integer of the source a natural number with its wrap-around written out, a
-- counter of the metrics a number without bound. A channel is what was sent and whether its
-- receiver is there: a send waits for room and then succeeds, or fails once the receiver is gone.
-- Loops over what arrives are recursions on the list of arrivals, so no fuel is used.
--
-- Parameters: the metrics library, what the operating system refuses a listener, the validator's
-- checkers, files and JSON reader, the process environment, the parser of socket addresses, the
-- HTTP client with the kernel behind it, the tests of status codes and headers of the HTTP
-- library, the debug format of text, whether the libraries' clients and servers can be set up, and
-- what the gRPC transport delivers.
--
-- Not modelled: the HTTP server of the metrics endpoint, TLS itself, logging, the writing of JSON,
-- and every program that is not one of these three.
pub mod Common
pub mod Server
pub mod Wire
pub mod Client
pub mod Tunnel
pub mod Validator
pub mod Examples
