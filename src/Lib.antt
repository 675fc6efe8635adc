-- ===== src/Lib.antt =====
-- A verification library for oresat-c3-software, the flight software of the c3 card (command,
-- communication and control) of OreSat. The program is written in Python on top of the olaf
-- framework, which runs each service's `on_loop` over and over and holds the CANopen object
-- dictionary (OD).
--
-- The parts and how they interact. Drivers talk I2C. The OPD (OreSat Power Domain) powers the
-- other cards of the satellite: each card has a node, which is one MAX7310 GPIO expander. The
-- node manager polls the nodes, writes their states to the OD, resets those with errors and gives
-- up on those that were reset too often. The state service runs the mission: it waits after
-- ejection (PRE_DEPLOY), fires the antennas (DEPLOY), and then goes between STANDBY, BEACON and
-- EDL (engineering data link), in which the ground sends commands. It stores its part of the OD in
-- the F-RAM and restores it at the next start. The EDL service unpacks what comes from the radio
-- (an EDL packet is a USLP frame with a CRC and an HMAC around a command), runs the command on the
-- OPD, on the OD or on other cards, and sends the response back as an EDL packet. The beacon
-- service sends AX.25 frames. Files go up and down by CFDP: the handlers of cfdp-py read and write
-- a file cache of olaf through a filestore, and the receiver of the EDL service answers the
-- requests that come with them. The ground has tools that ping the card and send it commands. The
-- radios get their local frequency from a Si41xx synthesizer.
--
-- Files, by the part of the source:
--   Drivers/I2c          the I2C bus (the smbus2 package): a record of two operations, a parameter
--   Drivers/Max7310      oresat_c3/drivers/max7310.py; one definition for each method, named
--                        after it without the leading underscore (`__init__` is `new_max7310`)
--     Pins               the pin operations against a chip that keeps its registers, but for
--                        the input port, which follows the pins
--   Drivers/Fm24cl64b    oresat_c3/drivers/fm24cl64b.py
--     Memory             reads and writes against a memory of 8192 bytes
--   Drivers/Si41xx       oresat_c3/drivers/si41xx.py: the GPIO lines are a list of pin events
--     Gcd, Divider       theorems on `calc_div`
--     Running            `start` and `stop`
--     Serial             the words that a chip latches from the pin events
--     Synthesis          theorems on `set_if`
--   Subsystems/Antennas  oresat_c3/subsystems/antennas.py: the GPIO events of a deployment
--   Subsystems/Opd       oresat_c3/subsystems/opd.py, the class Opd
--     Node, Methods      the classes OpdNode, OpdStm32Node and OpdOctavoNode
--     Status, Reset, Reach, Nodes, Power   theorems on the subsystem and its nodes
--   Services/State       oresat_c3/services/state.py: the state machine; a pass of `on_loop` up to
--                        its storing is `loop_pass`
--     Storage            `store_state`, `restore_state` and `clear_state`
--     Machine, Deployments, RoundTrip, Kept, Clearing   theorems on them
--   Services/NodeManager oresat_c3/services/node_manager.py: the state of one node
--     Loop               `on_loop`
--     Counts, Resets     theorems on it
--     Callbacks          the callbacks for the OPD and the UART, and a theorem on them
--   Services/Edl         oresat_c3/services/edl.py: `_upack_last_recv`
--     Outside, World     what `_run_cmd` calls and acts on
--     Commands           `_run_cmd`, one definition for each command that is more than a call
--     Loop               `on_loop`, from the message of the radio to the responses
--     Sequence, Guarded, Answers           theorems on them
--     Files              the class EdlFileReciever: its requests, its state and the indications
--       Loop             the indications that answer, and `loop`
--       Growing, Queue, Proxied            theorems on them
--   Services/Radios      oresat_c3/services/radios.py
--     Power              theorems on it
--   Services/Beacon      oresat_c3/services/beacon.py, and the receiver in scripts/beacon.py
--     Frames             theorems on them
--   Protocols/EdlCommand oresat_c3/protocols/edl_command.py: the payloads of EDL commands
--     RoundTrip          theorems on them
--   Protocols/EdlPacket  oresat_c3/protocols/edl_packet.py
--     Authentic, RoundTrip                 theorems on it
--     Plain              packages that meet the hypotheses, for the tests
--   Protocols/Ax25       oresat_c3/protocols/ax25.py
--     Callsign, RoundTrip                  theorems on it
--   Protocols/CacheStore oresat_c3/protocols/cachestore.py, method by method
--     Spec               the calls on a function from names to bytes
--     Steps, Runs        each call, and a run of calls, against Spec
--     Listing            `list_directory`
--     Segments, Upload   the bytes of a file that is written in segments
--   Protocols/Cfdp       oresat_c3/protocols/cfdp.py: the checksums
--     Handlers           the methods of the source and the destination handler
--     Modular, Segmented, Transfer         theorems on them
--   Scripts/PingLoop     scripts/edl_ping_loop.py
--     Accounting, Order, Rounds            theorems on it
--   Scripts/CmdShell     scripts/edl_cmd_shell.py
--     Sdo                the two commands that look into an object dictionary
--     Lines, SdoLines, Numbers, Sessions theorems on them
--   Protocols/Struct     the formats of Python's struct that the payloads use
--   Prelude              the library's names, lists over native numbers, bits, dicts, and the
--                        monad of a method: a state and the exceptions that it raises
-- Each part has a module Tests, which applies the theorems at concrete inputs; Chip modules
-- simulate a chip that meets what the theorems ask of the bus.
--
-- How the code is modelled. A method is a function from the object, the bus and its arguments to
-- a result and the new object and bus; what was changed before an exception stays changed. The
-- clocks, GPIO inputs and the like are arguments, one for each reading. Python's integers
-- are naturals: the values come from unsigned OD entries, clocks and byte strings. Clocks are
-- counted in microseconds. The loops run over lists, or over a count of tries that the code has
-- too. The two loops of `calc_div` run on fuel, which is the sum of both frequencies for the
-- first, where each round takes at least 1 away, and the number itself for the second, which
-- halves it. So do the two loops of the checksums: a fuel above the number of words, and above the
-- size of the file, is enough, since each round takes a word or a byte at least. Running out is a
-- result of its own, and is ruled out.
--
-- Hypotheses on code outside of the repository: a chip keeps the registers or the bytes that are
-- written to it, where the input port of a MAX7310 may follow its pins (`IsChip`, `IsFramChip`);
-- the codec of canopen decodes what it encoded, in as many bytes as the default value takes
-- (`Fits`); bitstring shifts a byte string by one bit
-- (`IsBitstring`); SHA3-256 has 32 bytes, and a USLP frame is unpacked to what was packed
-- (`IsPackages`); a CRC calculator that is given a string in parts has the string
-- (`IsIncremental`). The handlers of cfdp-py are machines, of which nothing is assumed: they call
-- the receiver's methods in any order and then return or raise (`Machine`). olaf's node, its
-- object dictionaries and the file receiver are records of functions, of which nothing is assumed
-- (`Outside`, `FileReceiver`).
--
-- Not modelled: logging and sleeping; olaf, canopen, smbus2, cfdppy, spacepackets and bitstring;
-- sockets, GPIO and clock devices, such as the RTC; the configuration of the CFDP handlers in the
-- constructor of EdlFileReciever; the tool that uploads files, what the shell prints of a
-- response, and the parsing of arguments in all tools; the OD look-ups in the constructors and in
-- `on_start`, and the JSON of the node manager's status.
pub mod Prelude
pub mod Drivers
pub mod Subsystems
pub mod Protocols
pub mod Services
pub mod Scripts
