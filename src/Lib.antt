-- ===== src/Lib.antt =====
-- Verification of the LoRa gateway firmware (main.cpp, Modules). The firmware is one polling loop,
-- main.cpp: it calls Gateway::update for ever, and every component below it is a state object that
-- does a small step at each call and keeps the rest for the next one, in its fields or in static
-- variables. The models are step functions of the same shape: a call takes the component's record,
-- with the static variables of its methods as fields, and returns the new record with the result.
--
-- Modules/Non_Blocking_Delay is Timer: a delay is a record, and the tick counter that the source
-- shares is the argument `now` of what reads it; Timer.Tickers models the interrupt side.
-- Modules/ATCommandHandler is AtHandler: the serial port is the list of its unread bytes and the
-- list of what was sent, and a call of readATResponse takes one byte. Modules/PowerManager is
-- Power: the classes that derive from PowerState are the constructors of a data type with their
-- fields (Power.State), each class is a module with its methods (On, Off, ManualOff, Sleep), and
-- Power.Manager dispatches on the state, as the virtual calls do. Modules/CellularModule is
-- Cellular: Responses has the parsing of the modem's answers, Connection what each ConnectionState
-- does in connect up to its timer, Connect the rest of connect and the dispatch. Its
-- TransceiverState is Transceiver: Configure and Post have what each state does in
-- exchangeMessages up to its timer, Exchange the rest and exchangeMessages of the module.
-- Modules/GNSSModule is Gnss: Position has the parsing of the position line, Retrieve the
-- geopositioning states and the module. Modules/MessageHandler is Messages: a handler is a
-- function on memory blocks that is given the next handler, and Messages.Chain has the two chains
-- that Modules/Gateway/Gateway.cpp sets up.
--
-- Modules/Gateway is Gateway: Gateway.Ack has sendAcknowledgement of GatewayState/SendingAck, with
-- the radio as the list of the packets that it was given, and Gateway.Waiting has waitForMessage
-- of GatewayState/WaitingForMessage up to the parsing of the message, with what the radio reads as
-- an argument of the call.
--
-- Its GatewayState/ExchangingMessages is Exchanging: Answer has the fields of the server's answer,
-- State the state on the model of the cellular module, with the decoding of the token as a
-- parameter. Ethernet.Sending has exchangeMessagesThroughEthernet of
-- GatewayState/SendingMessageThroughEthernet, with what the network stack returns as an argument,
-- Formatting.MetaData has addMetaData of GatewayState/FormattingMessage and epochToTimestamp of
-- Modules/timeStampTools, Formatting.Payload the texts of the messages to the server, with
-- encodeJWT as a parameter. Parsing.Message has parseReceptedLoRaMessage of
-- Modules/Gateway/Gateway.cpp, and Route.States has its update with the choice of the next state
-- in every state.
--
-- The modules stand on one another as the classes do: the power manager and the connection states
-- use one AT handler, the connection states and the transceiver states share the module's one
-- delay, the state that exchanges messages calls the module, and the gateway's chains are composed
-- of the handlers. A loop of the firmware is the repetition of a call by its caller, so the
-- theorems on termination take the list of the polls, each with its inputs and with the bytes that
-- came in since the one before, and count the polls at which the delay is over; no fuel is needed.
-- The scanning of numbers recurs on the text.
--
-- Not modelled: within one call the tick counter and the input pins are constant; output to the
-- log port is left out; the tests for null pointers are left out where every caller in the
-- repository passes an object; int and long long counters are not bounded, and a scanned decimal
-- that does not fit in its type, which is undefined in C, is the nearest number of the type; a
-- state object that is deleted while its method runs is read as if it were still there; and what
-- is written outside of a memory block does not change the block, while what the authentication
-- verifier reads below its block is a parameter (Primitives.below). The sscanf of the battery data
-- and the conversions of floats in positions and messages are parameters because of their floats.
-- SHA-256, localtime and the token of a message to the server are parameters, too. CRC-32, HMAC,
-- AES and Base64 are parameters with their documented behaviour as hypotheses
-- (Messages.Base.IsDocumented), which Messages.Simple shows to be satisfiable. The transceiver
-- states of the path over a TCP socket, the JWT manager, the movement events and timestampToEpoch
-- have no model; the LoRa driver, the Ethernet stack and AES are libraries that the program calls.
mod Prelude
pub mod Timer
pub mod AtHandler
pub mod Power
pub mod Cellular
pub mod Gnss
pub mod Messages
pub mod Gateway
pub mod Ethernet
pub mod Exchanging
pub mod Formatting
pub mod Parsing
pub mod Route
pub mod Transceiver
