-- ===== src/Lib.antt =====
-- plug_node connects n8n to a Plug server: n8n nodes send JSON-RPC commands to agents over REST or
-- socket.io, pull result streams in windows, and start workflows on socket events. These modules
-- model its core logic and prove what makes it correct.
--
-- The parts, and where they are in the repository:
--   * Frame: every message on the socket is a frame (shared/socket/payloadFrameCodec.ts,
--     shared/contracts/payload-frame.ts). Frame/Types has the frame, the options and the errors;
--     Frame/Shape `assertValidFrameShape` and `payloadToBuffer`; Frame/Signing `signFrame`,
--     `resolveVerificationKeys` and `verifyFrameSignature`; Frame/Codec the encoding and decoding.
--     An `await` of zlib's asynchronous entry is the same as the synchronous one, so that the two
--     variants of each function are one definition here.
--   * Retry: the executor sends a built command, over a transport that is an argument, and tries
--     again (shared/n8n/plugTransientRetry.ts, plugTransportExecutor.ts, plugCommandIdRotation.ts).
--     Retry/Policy has the decision and the delay, Retry/Executor the loop and the rotation of ids.
--   * Stream: a result stream is pulled in windows. Stream/Credits is the count of the chunks
--     (shared/socket/streamAggregationState.ts, streamPullPrefetch.ts), Stream/Window the size of
--     the next window (streamPullWindowPolicy.ts, and a function of relaySessionNormalization.ts),
--     Stream/Pulls the pulls that wait for an answer (streamPullSession.ts), over all the sessions of
--     a transport, Stream/Answers the checks of the hub's payloads (relaySessionNormalization.ts),
--     Stream/Buffers the limits and the merging of rows (streamCommandSessionCommon.ts).
--   * Decoding: the chunks of a stream are decoded in parallel and applied in order
--     (shared/socket/parallelChunkDecode.ts). Decoding/Types has the state, Decoding the operations,
--     Decoding/Lazy the queue that is made when it is first used.
--   * Trigger: events from the socket wait in a bounded queue before the workflow runs
--     (packages/n8n-nodes-plug-database/nodes/PlugDatabaseSocketEventTrigger/
--     triggerBackpressureQueue.ts), modelled in Trigger/Backpressure, and Trigger/Reconnect is the
--     manager that connects the session again (triggerReconnectManager.ts beside it). A handler, or
--     one part of a promise chain, is one step. The manager's model starts with the trigger's one call
--     of connectWithRetry; further calls come from the manager's own timer.
--   * Mcp: agents call capabilities, which are SQL or tools (shared/mcp and
--     shared/n8n/mcpServerExecution.ts). Mcp/Params is paramValidator.ts, Mcp/Governance governance.ts,
--     Mcp/Tokens and Mcp/Registry forbiddenCapabilities.ts and registry.ts, Mcp/Server the way of a
--     call up to the execution of its capability.
--   * Items: how many input items of an SQL node run at once
--     (shared/n8n/plugInputItemParallelism.ts).
--   * Identity: a response is taken only for the commands that were sent
--     (shared/contracts/rpcIdentity.ts).
--   * Values: JSON and numbers of unknown shape, as `isRecord` and `typeof` test them. Base: lists,
--     Boolean tests and the names that all the modules share.
--
-- State is passed explicitly: an operation takes the state and answers the new one, with the calls
-- to the outside as a list of effects. A thrown error is a value of a result type. The clock, the
-- random ids and the draws of Math.random() are arguments. Sizes and counts are natural numbers; a subtraction that
-- the source guards by `Math.max(0, …)` is the one that stops at 0.
--
-- Bounds: the loop over the attempts has three rounds, as in the source, and the error behind the
-- loop is an ending of its own. The queue's `drain` recurs on the list of the waiting tasks. No other
-- definition needs fuel.
--
-- Node.js' crypto, zlib, Buffer and JSON are a record of functions; the round trip of the codec
-- takes their documented laws as a hypothesis, which the tests meet with small functions.
--
-- Not modelled: the socket.io transport and most of the sessions over it, the REST clients, the login,
-- what a capability's execution does, the node descriptions, and the tools that call libraries for
-- documents.
pub mod Base
pub mod Values
pub mod Trigger
pub mod Retry
pub mod Stream
pub mod Frame
pub mod Identity
pub mod Decoding
pub mod Mcp
pub mod Items
