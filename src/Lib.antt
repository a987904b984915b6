-- ===== src/Lib.antt =====
-- The firmware of the JZ-F407 board: an STM32 that switches two LEDs and a relay on commands that come
-- over MQTT, keeps its network configuration and the LEDs in an EEPROM, and serves a web page to set
-- the configuration.
--
-- The parts, with the code they model:
--   Debouncer     logic/src/debouncer.rs      samples of a button to a stable level and edges
--   LedDispatch   logic/src/led_dispatch.rs   an MQTT topic and payload to a command
--   WebForm       logic/src/web_form.rs       decoding of form values, escaping of attributes
--   Auth          logic/src/auth.rs           the base64 token that a login is compared by
--   NetConfig     logic/src/config.rs         the configuration, its 175-byte image, and its parsers
--   Eeprom        src/eeprom.rs               the chip, byte by byte, and its lock
--   ConfigStore   src/config.rs               load and save of the configuration, at byte 16
--   Persistence   src/persistence.rs          load and save of the LED state, at byte 0, with a cache
--   Storage       both of them on one chip
--   Web           src/web.rs                  requests, session, login, forms, routes
--   Web.Page      src/web.rs                  the pages and the other answers, byte for byte
--   Web.Browser   what a browser does with a form or a cookie: an independent description, no code of the program
--   Outputs       src/outputs.rs              the pins, and the task of the relay's pulse
--   FaultMarker   src/fault_marker.rs         the reason of the last reset
--   Mqtt          src/mqtt.rs                 what a message does, subscriptions, the connect options
--   Mqtt.Task     src/mqtt.rs                 the task: connecting, announcing, the connected loop, pauses
--   Sse           src/sse.rs                  the stream of state changes for the page; Sse.EventSource is
--                                             an independent description of how a browser reads it
--   Boot          src/main.rs                 from reset to the running tasks, with the I2C bus recovery
--   Boot.Tasks    src/watchdog.rs, src/heartbeat.rs
--   Prelude and Text hold what they share: lists, bytes, bit operations, and the string functions of
--   the standard library on UTF-8 bytes (from_utf8, chars, trim, split, parse, to decimal).
--
-- How they interact. At boot `load_config` and `load_state` read the EEPROM. A message goes through
-- `dispatch` to `handle_event`, which sets the pins, saves the LED state through the cache, signals the
-- relay task, or restarts the board with a marker that the next boot reads and the MQTT task announces.
-- A request goes through `serve_connection`: the session or the login first, then the routes, of which
-- `/save` decodes the form, saves the configuration and restarts, and `/events` samples the outputs that
-- MQTT switches (Mqtt.Shown). The parts do not share memory beyond what is written in their states: the
-- two stores share the chip (Storage), the web pool's sockets share the session (Web.Serve.Ended follows
-- it over any sequence of connections).
--
-- How the code is represented. Texts and buffers are lists of bytes, numbers are natural numbers with
-- the wrap-around of their type written out, structs are records, statics are fields of the state that
-- a function takes and returns. A `Mutex<Option<_>>` is a flag, held elsewhere or not, and its content.
-- Time is an argument: a `Clock` for the readings made while one request is served, milliseconds for
-- the relay. A request is handled in one step: the handlers change the session without an `await`
-- between. A panic is the value `panic` of Web's `Run`. heapless capacities are arguments or constants,
-- and a push that does not fit is refused whole, as heapless does.
--
-- What stands outside. The I2C bus and the chip are the record `Bus` of Eeprom, with what a transaction
-- does to the stored bytes: a write that succeeds stores its byte, a write changes no other byte even
-- if it fails, a read gives the bytes that are stored. Eeprom.Simulated is such a bus, and the examples
-- run on it. The MQTT client is seen by its answers, a socket by the bytes of its first read, and
-- `embassy_net::new` by which configurations it takes without a panic (an argument of `Boot.main`).
--
-- A page is the list of what is written to the socket, call by call; the literals of the source are kept
-- as they are, in UTF-8. The handlers name an answer by a constructor of `Reply`, and `Web.Page.Answer.written`
-- gives its bytes. The MQTT task is a step function from one point where it waits to the next, on what
-- the network answers there; between two steps the other tasks may change what it shares. At the boot
-- the recovery of the bus works on two lines that are a parameter (`Lines`), the rest on the EEPROM.
--
-- Fuel. `to_decimal` takes n + 1 steps for the number n, which has no more digits than that
-- (`Text.Decimal.parse_uint-to_decimal`). The loop of the bus recovery has the nine turns of the source.
-- All other loops are recursions on their input.
--
-- Not modelled: the clock tree, pins and drivers that src/main.rs sets up, src/net.rs and build.rs, which
-- only call drivers; the waits, the flushes and the closing of sockets in src/web.rs and src/sse.rs;
-- src/buttons.rs, which is commented out; and in `main` the spawns and the one-time cells, which `main`, run
-- once, cannot use up.
pub mod Prelude
pub mod Debouncer
pub mod Text
pub mod LedDispatch
pub mod WebForm
pub mod Auth
pub mod NetConfig
pub mod Eeprom
pub mod ConfigStore
pub mod Persistence
pub mod Storage
pub mod Web
pub mod Boot
pub mod Outputs
pub mod FaultMarker
pub mod Mqtt
pub mod Sse
