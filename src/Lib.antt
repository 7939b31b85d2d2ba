-- ===== src/Lib.antt =====
-- WebSocketDS: a server that lets WebSocket clients read, write and command the devices of a Tango
-- control system and subscribe to their events. It is built in two modes (src/*/CurrentMode.h): the
-- server mode for a fixed device or group, the client mode for any device.
--
-- A client opens a connection (WSThread), which is authenticated by the device AuthDS (UserControl).
-- Each message is parsed and checked (ParsingInputJson); a request on users goes to WSTangoConn, one
-- on events to EventProcCli, any other to WSTangoConnCli, which asks for permission and hands it to
-- TangoProcessor. That sends commands, readings and writes to Tango without waiting: the connection
-- becomes active with a task for each, and a thread collects the answers in passes over the active
-- connections. All answers are texts (StringProc, TangoProcessor).
--
-- The files, with the code they are about in src/wstangoproc_common and src/wstangoproc_cli:
--   Wire          common.h, ErrorType.h, ResponseFromEvent.h, EnumConverter.h: the enumerations and
--                 their tables; Wire/Kinds the tests on the type of a request, Wire/Tags the proofs
--   Request       ParsingInputJson.h: the parsed request; Request/Parse is `parseInputJson`,
--                 Request/EventLists `_getEventSubList`, Request/Validity `_checkValidity`; the proofs
--                 are in Request/Complete and Request/Answered
--   StringProc    StringProc.cpp: StringProc/Response the texts that go out, StringProc/Split the
--                 cutting of texts, StringProc/Precision the precision options; the proofs are
--                 in StringProc/Split/Rejoin and StringProc/OneLine
--   UserControl   UserControl.cpp: `check_user`, `check_permission`, `sendLog`; the proofs are in
--                 UserControl/Permission and UserControl/Log, and in UserControl/Calm for an AuthDS
--                 whose commands answer or end in a `DevFailed`
--   Session       WSTangoConn.cpp and WSThread.cpp: Session/Options the options of the device,
--                 Session/Users a connection's user; the proofs are in Session/Settings,
--                 Session/Access and Session/Calm
--   Events        EventProcCli.cpp: Events/State the maps and the operations on one subscription,
--                 Events/Subscribe, Events/Unsubscribe and Events/Requests the requests; the proofs
--                 are in Events/Isolation, Clients, Subscriptions and Departure
--   Connections   WSThread.cpp and WSThread_plain.cpp: Connections/Opening is `on_open`, `on_close` and
--                 `addActive`, Connections/Sending `send` and `send_all`, Connections/Messages
--                 `on_message`, Connections/Checking the thread that collects answers; the proofs
--                 are in Active, Collecting, Requests and Safe (histories), Tasks and Waiting
--                 (the tasks of a connection), Time, LastPass and Settled (the end of the loop), and Address
--   Devices       TangoProcessor.cpp and TangoProcessor.h: Devices/Argin the data that is sent,
--                 Devices/Asking the requests, Devices/Values the JSON of values, Devices/Answering
--                 the answers; the proofs are in Devices/Made, Members, Sendable and
--                 Braces
--   Client        WSTangoConnCli.cpp and GroupForWs.cpp: the requests of the client build, with the
--                 pipes in Client/Pipes; the proofs are in Client/Permission, Contained,
--                 Escapes and Dimensions
--   ServerBuild   wstangoproc_ser/WSTangoConnSer.cpp: `sendRequestAsync` of the server mode, with the
--                 branch of `processAsyncReq` that it uses; ServerBuild/Requests is `sendRequest` and
--                 `checkResponse`; the proofs are in ServerBuild/Permission and
--                 ServerBuild/Waiting
--   Base          Booleans, texts, `std::stoi`, dictionaries and nested dictionaries
--   Tests         runs at concrete inputs
--
-- An operation that changes state takes the state and returns it. The Tango library, AuthDS,
-- websocketpp and boost's property tree are records of operations, parameters over a state of
-- everything outside the program; an exception is a value: a `DevFailed`, a `runtime_error` with
-- its text, or one of another kind, where the code tells them apart. `otherInpStr.at(key)` is
-- called only for keys that the parser requires; the text that `value_at` has for a missing key
-- stands for no call of the source. WSThread calls the client build through the record `TangoConn`,
-- which `Client.client` fills. A map is an association list, whose order stands for the unspecified
-- order of an unordered map. A connection's handle is a number. What an uninitialised variable
-- holds is a parameter, `unset`. A device proxy is known by the name that it was made with. The
-- operations on events hold one lock from end to end, so that a history is a sequence of calls; a
-- pass over the active connections holds the lock of the connections, and a history of WSThread is
-- a sequence of whole handlers and passes. A 32-bit `int` is read by `stoi` with its bounds, and
-- the number of sessions wraps at 2 ^ 64. There are two fuels: that of `parseInputString` is the
-- length of the text and one more, of which every round uses up at least the separator; that of the
-- loop of `checkActions` is enough when it is above the number of passes within which Tango
-- answers.
--
-- Not modelled: of the server mode the set-up of the device or group, its updates and EventProcSer;
-- the data of an event (`processEvent`, `processUpdate`), the copies that MyAttributeData and
-- MyEventData make of Tango's fields, the TLS endpoint, the start and stop of threads, a pass in
-- the middle of a handler (which holds the lock only where it changes the maps), logging, the
-- generated device classes and the copy of websocketpp.
pub mod Base
pub mod Wire
pub mod Request
pub mod StringProc
pub mod UserControl
pub mod Events
pub mod Session
pub mod Connections
pub mod Devices
pub mod Client
pub mod ServerBuild
pub mod Tests
