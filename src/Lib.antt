-- ===== src/Lib.antt =====
-- A model of the jack crate, the Rust bindings of the JACK audio server, and what is proved of it.
--
-- The program. A `Client` (src/client/client_impl.rs) is opened at the server, registers and connects
-- ports, and closes when it is dropped. Opening, closing, connecting, activating and deactivating take
-- one global lock (src/client/common.rs). `AsyncClient` (src/client/async_client.rs) boxes a client with
-- its handlers, registers the functions of src/client/callbacks.rs with the server, activates the
-- client, and gives it back on deactivation or closes it when it is dropped. A port (src/port/port_impl.rs) and a
-- transport (src/transport.rs) hold a `Weak` to the client's `Arc<()>` and refuse to work when it is
-- gone. In a process cycle the server hands out a `ProcessScope`, and with it the buffers of audio
-- ports (src/port/audio.rs) and of MIDI ports (src/port/midi.rs). A ring buffer (src/ringbuffer.rs) is
-- independent of all this.
--
-- The model. libjack is not part of the repository: its functions are records of functions over an
-- abstract state (`TransportApi`, `PortApi`, `MidiApi`, `TimingApi`, `ClientApi`, `ActivationApi`,
-- `IdentityApi`, `SettingsApi`, `RingApi`, `LogApi`, `MetaApi`, `DescriptionApi`), and an operation
-- takes that state and returns it with its result. What a theorem needs of the library is a hypothesis
-- or a record of laws (`Lawful` of Midi/Buffer, `Fifo` of Ringbuffer/Queue, `Stores` of Metadata/Laws,
-- `Counted` of Client/Effects, `Identified` of Client/Identity/Laws, `Recorded` of
-- Client/Registration). Pointers are numbers, 0 the null pointer; strings are lists of bytes. A call
-- that may panic gives `Panics`; where the lock or a destructor is involved, an `Outcome`: it returns,
-- unwinds, deadlocks, or aborts by a second panic.
-- `System` puts the clients together: a program that owns some, as a step relation in which every step
-- is one of the operations, however it ends but for an abort, or a call that the server makes;
-- `Client::from_raw`, which is unsafe, is not among them.
--
--   Base, Floats, Strings     shared helpers; the floats are a parameter, as is the decoding of UTF-8
--   Enums                     src/jack_enums.rs, src/client/client_status.rs
--   Life                      the `Arc<()>` and `Weak<()>` of clients
--   Transport.Bbt             `TransportBBT` and its validation, src/transport.rs
--   Transport.Position        `TransportPosition`, src/transport.rs
--   Transport.Control         `Transport`, src/transport.rs
--   Port                      src/port/port_impl.rs, src/port/port_flags.rs
--   Port.Specs                src/port/audio.rs, and the specifications of src/port/midi.rs
--   Midi                      the iterator and the writer of src/port/midi.rs
--   Scope                     `ProcessScope` and `CycleTimes` of src/client/client_impl.rs
--   Port.Info                 `PortInfo` and the comparisons of src/port/port_impl.rs
--   Port.Classes              the quotient of the ports by their equality
--   Client                    `Client` of src/client/client_impl.rs: opening, closing, settings, times
--   Client.Ports              `Client` of src/client/client_impl.rs: registering and connecting ports
--   Client.State              the global lock, the life cells, unwinding
--   Client.Callbacks          src/client/callbacks.rs, src/client/handler_impls.rs
--   Client.Serving            the server's calls of the functions of src/client/callbacks.rs
--   Client.Async              src/client/async_client.rs
--   Client.Identity           the names and uuids of clients and the list of ports, client_impl.rs
--   Client.Flags              src/client/client_options.rs, src/client/client_status.rs
--   Client.Info               `ClientInfo` of client_impl.rs
--   Client.Settings           the settings, `from_raw`, and the handler of property changes,
--                             client_impl.rs; `get_time` of src/lib.rs
--   Client.Effects            what the operations do to the life cells and the open clients
--   Client.Registration       which box the library has for the callbacks of a client
--   System                    a program with its clients: what holds in every state it can reach
--   Threads                   the blocks under the lock, access by access, on many threads
--   Threads.Window            the drop of a client, and a port of it in another thread
--   Ringbuffer                src/ringbuffer.rs
--   Logging                   src/logging.rs
--   Logging.Locks             its mutexes, for callbacks that use the logging functions themselves
--   CStrings                  src/jack_utils.rs
--   Examples.ShowMidi         examples/show_midi.rs
--   Examples.Sine             examples/sine.rs
--   Examples.PlaybackCapture  examples/playback_capture.rs
--   Examples.SetTransport     examples/set_transport.rs
--   Examples.ShowTransport    examples/show_transport.rs
--   Metadata                  src/properties.rs
--   Metadata.Maps             the maps of properties of src/properties.rs
--
-- A definition has the name of its method in the source; `create` is `RingBuffer::new`, `async_new`
-- is `AsyncClient::new`, a `drop_` is a destructor, and a name with `_callback` is a function of
-- src/client/callbacks.rs whose own name a handler's method has. Where a method has several steps, a
-- helper is named for one of them (`open_with`, `take_down`, `start_client`, `write_bbt`).
--
-- Bounds. `usize` has 64 bits; the casts of src/transport.rs and the additions of the MIDI iterator
-- wrap as in the source, the latter also with the overflow checks of a debug build. Fuel
-- bounds `collect` of Midi/Collect and `send_all` of Examples/ShowMidi, which drain an iterator, and the
-- counting loop of `CStrings`: one more than the number of messages, or of strings, is enough. The
-- loop of Examples/ShowTransport runs until it is stopped: its fuel is the number of its turns.
--
-- `Threads` takes calls apart: a `Section` is the code that is left of a call, one access to the shared
-- state after the other, with `lock`, `unlock` and `poison` among them. A thread asks for a request and
-- runs its code; one whose code begins with a held `lock` waits; the steps of all threads interleave in
-- any order. The requests are the five blocks under the lock, each with its lock: of `Client::new`, of
-- `Drop for Client`, of `AsyncClient::new`, of `maybe_deactivate` and of `connect_ports`. What these
-- functions do behind their blocks, the destructors that a panic runs, and the calls that take no
-- lock are not among the steps. Threads/Window has the whole drop of a client, its `Arc` included.
--
-- Not modelled: `Debug` and `Display`, log callbacks that panic, what the flags of
-- src/client/client_options.rs ask of the server, the parts of the examples that open and activate a
-- client, wait for the input and deactivate, and the bindings of jack-sys/src/lib.rs but for the
-- constants and the structure that the code reads, since bindgen makes them from the headers of
-- libjack. What the examples print is the text and the arguments of each `println!`. The memory model
-- is sequential: an access is seen at once by every thread, and the queue of a ring buffer is a
-- sequence of calls.
pub mod Base
pub mod Enums
pub mod Floats
pub mod Life
pub mod Strings
pub mod Transport
pub mod Port
pub mod Scope
pub mod Midi
pub mod Client
pub mod Ringbuffer
pub mod Logging
pub mod CStrings
pub mod Metadata
pub mod System
pub mod Examples
pub mod Threads
