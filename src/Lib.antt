-- ===== src/Lib.antt =====
-- A sensor node on the narrowband IoT and the part of its agent that reads what it sends.
--
-- The node is an Arduino sketch, src/NB-IoT_node/NB-IoT_node.ino, over a driver for the SARA modems
-- in src/NB-IoT_node/arduino-nbiot-sdk-master: Sodaq_AT_Device.cpp writes and reads the serial line
-- with timeouts, ATT_NBIOT.cpp makes the commands, reads the responses and moves datagrams, and
-- PayloadBuilder.cpp and CborBuilder.cpp pack values. The agent is Java, in src/NB-IoT_agent.
--
-- Base: Boolean tests, byte texts, C strings, lists with native lengths, machine words, and the
-- loop combinator with its rules.
-- Device: the state of the driver and of the world (clock, serial line, pins) in one record; an
-- operation is a function on it in the monad M, whose `none` is a loop that ran out of fuel.
-- Device/Print and Device/Read are Sodaq_AT_Device.cpp, Device/Loops the shapes of the waiting
-- loops, Device/Timing how far an operation moves the world, Device/Sent what it writes (the
-- modules Quiet, Sent, Script and Stages apply it), Device/Identity the names that it sends under
-- (the modules Keeps apply it), Device/Steps what a line that the modem delivers is; `safe_delay` is
-- `sodaq_wdt_safe_delay` of Sodaq_wdt.cpp.
-- OnOff: the class Sodaq_nbIotOnOff at the end of ATT_NBIOT.cpp.
-- Scan: the parts of `sscanf` that the driver uses.
-- Modem: ATT_NBIOT.cpp. Response is `readResponse`, Parsers the response parsers, Commands the
-- single commands, Signal the signal quality, Connect `connect`, Hex the hexadecimal macros, Send
-- `sendMessage`, `sendPayload` and `sendCbor`, Udp the receiving half, Object the
-- constructors and keys.h. Response/Dialogue is an
-- exchange with a modem that answers, Response/Extra one with several lines, Parsers/Config and
-- Commands/Config the settings that it reports, Connect/Steps and Connect/Script the protocol of
-- `connect`, Udp/Exchange a datagram's way in, Udp/Pieces the reading of what the modem holds in
-- several calls, Parsers/Origin and Udp/Origin where a packet's address comes from.
-- Payload and Cbor: the two builders; Cbor/Wide and Cbor/Assets are
-- parts of CborBuilder.cpp, Cbor/Decode is a reader by RFC 8949, which is no code of the
-- repository.
-- Node: the sketch, with the password in the EEPROM (Node/Storage, Node/Password), the timer
-- interrupt (Node/Timer), whole rounds of `loop` (Node/Rounds, Node/Downlink), who can set
-- the password (Node/Guard), and its life from the start through `setup` to any round (Node/Life).
-- Agent: DataPacket.java as the reader of a datagram and the decoding of createMeasurement.
-- Agent/Messages is the rest of DataPacket.java, Agent/Handler CumulocityHandler.java, with the
-- Cumulocity SDK as the parameter Platform, Agent/Routes AgentRouter.java and the two netty
-- classes. Agent/Text and Agent/Base64 are the operations of Java's library that they use.
-- Agent/Queues is what the consumers find in the queues, Agent/Arrival what a datagram becomes,
-- Agent/Service what it leads to when its messages are delivered one after the other. Agent/Steps is
-- the agent with its consumers at work in any order, Agent/Reports, Agent/Calls and Agent/Safety are
-- what it posts then, Agent/Orderly and Agent/Progress that no consumer fails,
-- Agent/Drain that they come to an end.
-- System: the boards and the agent together; System/Onboarding is the way to a password,
-- System/Network any number of boards at their rounds of `loop` and the agent's consumers at work,
-- behind a network that loses, repeats and reorders, System/Ready a board in it, System/Safety
-- what holds over it, and System/Drain that the consumers empty their queues.
-- Tests: concrete data, and the theorems applied to it.
--
-- Numbers are naturals; a machine integer is its bit pattern, with the wrap-around written out: int
-- and size_t have 16 bits, long and uint32_t 32, as on the ATmega1284P. A float or double is its
-- pattern of 32 bits. What the modem sends is a list of the results of single reads, with the time
-- that each takes; behind its end the line is silent. So a theorem on all devices is one on all that
-- a modem may send. Variables that the code reads before it writes them are arguments.
--
-- C defines nothing once an array is overrun. Where `sscanf` converts a text that does not fit its
-- array (32 characters for a setting's name and value, 16 for an address, 15 and one for the IMEI),
-- the conversion fails in the model: so what is said of all that a modem sends is said of the code as
-- long as no line overruns an array. Where `socketReceiveBytes` leaves the caller's buffer or its
-- own, or the sketch's array `data` is overrun, the operation has no result. A line of the modem has
-- to fit the driver's buffer of 250 bytes, which limits the datagrams that come in to some 105 bytes.
--
-- A loop with a timeout has fuel for each poll and each millisecond that is left (`fuel_for`), and
-- the theorems of the modules Returns show that this is enough, also when `millis` wraps around.
-- Two loops with 8-bit counters have 257 rounds, and `none` is there the loop that does not end.
--
-- Not modelled: the debug stream, the watchdog's registers, float arithmetic, the sensors' libraries
-- (copies of other projects'), which give the sketch its readings, when and whether the network
-- delivers (System/Network allows every datagram that was sent, at any time, and none that was
-- not), the broker's handling of a message whose consumer throws, and Cumulocity.
pub mod Agent
pub mod Base
pub mod Cbor
pub mod Device
pub mod Modem
pub mod Node
pub mod OnOff
pub mod Payload
pub mod Scan
pub mod System
pub mod Tests
