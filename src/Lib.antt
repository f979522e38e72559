-- ===== src/Lib.antt =====
-- Verification library of the ASGI server of this repository: the packages asgispec and aras, and
-- the configuration and the conversions in aras_py.
--
-- Parts and files:
--   Asgi           asgispec/src/spec.rs, events/ and scope/: the events and scopes of ASGI 3.0
--   Errors         aras/src/errors.rs
--   Communication  aras/src/communication.rs: Interface has the traits SendToASGIApp and
--                  ReceiveFromASGIApp as records of operations and laws, Handle, Callers
--                  and Lost the ApplicationHandle and the interleavings of its callers,
--                  Channel the channels, Factory what CommunicationFactory::build makes of them,
--                  Delivery, Conserved and Receiving the runs of both ends, Exited
--                  what is left once the application is over
--   Lifespan       aras/src/protocols/lifespan.rs
--   Http           aras/src/protocols/http.rs: Request is read_body, Response is make_response,
--                  Handler is handle with the orders in which its two futures resolve
--   Websocket      aras/src/protocols/websocket.rs: Handshake is handle and accept, Machine is State
--                  and run_protocol, Event the conversions into Event, Builder is FrameBuilder
--   Layers         aras/src/layers/error_handler.rs
--   Server         aras/src/scope.rs, types.rs, service.rs and server.rs, and aras_py/src/lib.rs
--   Python         aras_py/src/convert.rs and wrappers.rs: Parse reads the messages of a Python
--                  application, Build and Scopes make the dictionaries it gets, Wrappers has its
--                  send and receive functions and its call, State the state that it shares,
--                  Token its stop token
--   Mocks          aras/mocks/communication.rs and, in Application and Stream, application.rs and
--                  stream.rs
--   Suite          the tests that stand beside the code, with what each asserts as a type
--   Text           UTF-8 as Rust's String has it; Shared has the helpers; Examples the examples
--
-- The server calls Lifespan once at each end of its life, and for each request Server.Service chooses the
-- handler, which owns the two handles of its application. The handlers see the application only
-- through the interface of Communication, and the crates http, http-body, fastwebsockets, async_channel
-- and pyo3 through the records of Http.Library, Websocket.Library, Communication.Channel and
-- Python.Library, which are arguments of the definitions.
--
-- The interface is over sends that return; that a send over a full channel waits is in
-- Communication.Factory. Reads of fastwebsockets answer pings and close frames on their own, as its
-- defaults have it, and the header maps of http keep an order of their own: the records of both
-- crates say no more than that.
--
-- Time is a number that an awaited value carries; a timeout compares it with its limit.
-- Concurrency is an argument: the order in which the futures of try_join! resolve, the branches
-- that select! takes, the outcomes of accepting, the steps of the callers of a handle, and the
-- calls at both ends of the channels. Lengths and offsets wrap at 64 bits. FrameBuilder's loop
-- has as fuel one round more than the payload has bytes, which is enough for a limit above 0;
-- without fuel left the result is none. The digits of a content length have the number itself as
-- fuel. The loop of the mock lifespan application has a round for each unit of fuel, and is run
-- in the examples and the tests only.
--
-- Not modelled: logging, printing and serialisation, the layers of tower and tower-http, sockets
-- and hyper, and the bytes of the mock streams' frames, which are those of fastwebsockets.
pub mod Shared
pub mod Text
pub mod Asgi
pub mod Errors
pub mod Communication
pub mod Lifespan
pub mod Http
pub mod Websocket
pub mod Layers
pub mod Server
pub mod Python
pub mod Mocks
pub mod Examples
pub mod Suite
