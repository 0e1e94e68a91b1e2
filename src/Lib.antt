-- ===== src/Lib.antt =====
-- Elite Robots CS SDK: a verification of the parts of the C++ library that decode and encode the
-- controller's protocols and that keep the state of its connections.
--
-- The program. An application talks to a robot controller over several TCP ports. RtsiClient
-- (source/Rtsi) subscribes to variables by recipes: the controller answers with the type of each
-- variable, and data packages then carry the values both ways. PrimaryPort (source/Primary) has a
-- background thread that reads the controller's state messages, hands their sub-packages to the callers
-- that wait in getPackage, and reports exceptions; its requests send a script line and poll the state.
-- Both decode big-endian bytes with EndianUtils, and texts with StringUtils and VersionInfo. Errors are
-- EliteExceptions. The control script that runs on the controller connects back to a TcpServer of
-- the SDK, which sends it command frames of 32-bit words. EliteDriver (source/Elite) puts the parameters
-- into that script, makes the servers, and hands the script out by ScriptSender or sends it by the primary
-- port. RtsiIOInterface (source/Rtsi) keeps two recipes and a thread that receives one and sends the
-- other. DashboardClient (source/Dashboard) sends lines of text and compares the answers.
--
-- Which file models which part.
--   Shared (Tests, Lists, Outcome, Int, Action): Boolean tests, lists over the native numbers, the result
--     of a call (a value, an exception of include/EliteException.hpp, or undefined behaviour), integers,
--     and actions, which take a state to a result and the state that they leave.
--   Endian: include/Common/EndianUtils.hpp. `unpack` and `pack` for each width, with an offset, and for
--     arrays. A value is the number of its bit pattern.
--   Text: source/Common/StringUtils.cpp, splitString, with find and substr of std::string.
--   Version (Decimal): source/Elite/VersionInfo.cpp, with std::to_string and std::stoi.
--   Rtsi.Value: RtsiTypeVariant of include/Elite/DataType.hpp, and setVariantValue of
--     include/Rtsi/RtsiRecipe.hpp. The conversions between double and the integers are the processor's
--     and stand in a record, an argument of setValue.
--   Rtsi.Table: std::unordered_map by names. Rtsi.Recipe: getValue and setValue, and parserTypePackage,
--     parserDataPackage and packToBytes of source/Rtsi/RtsiRecipeInternal.cpp. A recipe is its list, its
--     table and its ID; each method holds the mutex throughout and is one step.
--   Rtsi.Client: source/Rtsi/RtsiClient.cpp. Monad has the client's state (the socket pointer,
--     connection_state, whether the io_context has run, and the connect handler that is left for its next
--     run), where the socket is a record of the network's behaviour; Receive has sendAll, receiveSocket
--     and receive; Requests has connect to receiveData. An action keeps the state that it
--     leaves where it throws.
--   Rtsi.Io: source/Rtsi/RtsiIOInterface.cpp. The root has the state, with a Client of Rtsi.Client;
--     Getters and Setters are the variables by name; Life has connect, disconnect and the rounds of the
--     receive thread; Files has readRecipe over the bytes of a file. A round of the thread
--     is one action: the calls of the application that fall between its two halves are not modelled.
--   Primary.Packages: the three sub-package classes and their parsers. Primary.Port: the objects by
--     pointer, parser_sub_msg_, the loop of parserMessageBody, and getPackage with the messages that come
--     while it waits. Primary.Exceptions: parserException. Primary.Message: parserMessage, over a record
--     of the socket. Primary.Requests (Scaling): sendScript, waitFor and powerOn to setSpeedScaling, over
--     a record of what the robot answers and what the clock allows.
--     Primary.Background: connect, disconnect and the rounds of socketAsyncLoop; what a round finds on
--     the wire and how a reconnect ends are a record, and `pending` is the read that a timeout leaves.
--   Control (Words, Frames, Commands, Feedback): source/Control, the frames of ReverseInterface,
--     TrajectoryInterface and ScriptCommandInterface as words and bytes, their writes to the client of a
--     Server, and the feedback of a trajectory. The conversions of floating-point numbers are a record or
--     an argument.
--     Control.Sender: source/Control/ScriptSender.cpp, one connection, whose bytes come in chunks.
--   Dashboard (Regex, Commands, Status, Tasks): source/Dashboard/DashboardClient.cpp, over a record of
--     the robot's answers, the writes and the clock. Regex has the patterns of std::regex that the client
--     builds; `pattern_of`, an argument, reads the paths that have special characters.
--   Driver (Template, Session, Forward, Serial): source/Elite/EliteDriver.cpp. Template has the
--     placeholders (Braces and Rendering take a script as texts with holes), with std::to_string and
--     the printing of floating-point numbers as a record; Session has init and the calls on the
--     servers, where what each question for a connection finds is a sequence; Forward has the commands
--     that go on to a server; Serial has the RS485 starts over the outputs of the SSH commands.
--   SerialPort: source/Elite/SerialCommunicationImpl.cpp, with what Boost.Asio does as an argument of each
--     call; a read without a timeout may wait for ever.
--   Registry: source/ClassLoader, the factories by key, and a loader.
--   Server: source/Common/TcpServer.cpp, the sockets by number, with the callbacks and calls as steps.
--
-- Bounds and fuel. A parser of the source reads outside a buffer where the message is too short; the
-- model then gives `fault`. Loops run on fuel: splitString one round for each byte and one more,
-- receive one for each byte that is still to come and one more (a round takes at least a header), the
-- sub-packages one for each byte (a round takes more than a head). Each is enough: a round that does
-- not end the loop takes at least one byte. waitFor, waitForReply and the wait of
-- stopControl run as many rounds as the clock gives them. The loops of log run one round for each byte of
-- the message, and those of scriptParamWrite one for each byte of the script; the latter need not end, and
-- the model gives none then. The bind loop has its thirty rounds. std::to_string of a uint32_t has at most
-- ten digits.
--
-- Not modelled: the log, which only prints; Boost.Asio, threads and clocks, of which the model has what
-- they do to the state; the loading of libraries, SSH, and files, whose bytes are arguments; the
-- plugins, which are floating-point algebra; where the code has a C++14 and a C++17 form, one
-- of them (unpack is modelled in the C++14 form, which differs for one byte).
pub mod Shared
pub mod Endian
pub mod Text
pub mod Rtsi
pub mod Version
pub mod Primary
pub mod Control
pub mod Server
pub mod Registry
pub mod SerialPort
pub mod Dashboard
pub mod Driver
