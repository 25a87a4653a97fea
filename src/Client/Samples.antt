-- ===== src/Client/Samples.antt =====
-- Clients, ports, handlers and a library at concrete values, for the tests: the state of the library is
-- the number of its open clients.
use rust_jack.Base.{ℕ, ◌+◌, ◌-◌, false, some, ◌==◌, if◌then◌else◌, ℤ, pos}
use rust_jack.Enums.{continue, quit}
use rust_jack.Strings.{codes, Utf8}
use rust_jack.Port.{Port, PortApi, unowned}
use rust_jack.Client.{Client, ClientApi}
use rust_jack.Client.State.{Lock, World}
use rust_jack.Client.Callbacks.{
  NotificationHandler, ProcessHandler, CallbackContext, trivial_notification, closure_process,
}
use rust_jack.Client.Async.{ActivationApi, AsyncClient}

-- A library whose state is the number of its open clients, which closes with a given code.
abbrev pub closing : ℤ → ClientApi ℕ
closing code = record {
  jack_client_open = λ s options n. (7, 0, n + 1);
  jack_client_close = λ c n. (code, n - 1);
  jack_connect = λ c s d n. (pos 17, n);
  jack_disconnect = λ c s d n. (pos 0, n);
  jack_port_disconnect = λ c p n. (pos 0, n);
  jack_port_unregister = λ c p n. (pos 0, n);
  jack_port_register = λ c s t f size n. (9, n);
  jack_port_by_id = λ c i n. i;
  jack_port_by_name = λ c s n. 0;
  jack_port_is_mine = λ c p n. pos 1;
  jack_port_request_monitor_by_name = λ c s b n. (pos 0, n);
  jack_set_buffer_size = λ c b n. (pos 0, n);
  jack_get_buffer_size = λ c n. 256;
  jack_get_sample_rate = λ c n. 48000;
  jack_frame_time = λ c n. 5;
  jack_frames_to_time = λ c f n. f;
  jack_time_to_frames = λ c t n. t;
  status_from_bits = λ b. some (record { bits = b });
}

abbrev pub lib : ClientApi ℕ
lib = closing (pos 0)

-- A library that activates and deactivates with given codes.
abbrev pub activating : ℤ → ℤ → ActivationApi ℕ
activating a d = record {
  jack_activate = λ c n. (a, n);
  jack_deactivate = λ c n. (d, n);
  set_callback = λ slot c box n. (pos 0, n);
}

-- Port functions that always give the name "out".
abbrev pub port_lib : PortApi ℕ
port_lib = record {
  jack_port_name = λ p v. codes "out";
  jack_port_short_name = λ p v. codes "out";
  jack_port_flags = λ p v. 1;
  jack_port_type = λ p v. codes "8 bit raw midi";
  jack_port_connected = λ p v. 0;
  jack_port_connected_to = λ p s v. pos 0;
  jack_port_get_aliases = λ p a v. a;
  jack_port_monitoring_input = λ p v. pos 0;
  jack_port_request_monitor = λ p b v. (pos 0, v);
  jack_port_ensure_monitor = λ p b v. (pos 0, v);
  jack_port_set_name = λ p s v. (pos 0, v);
  jack_port_set_alias = λ p s v. (pos 0, v);
  jack_port_unset_alias = λ p s v. (pos 0, v);
  jack_port_get_buffer = λ p n v. 7;
  jack_port_set_latency_range = λ p c r v. v;
  jack_port_get_latency_range = λ p c r v. r;
  jack_port_name_size = 8;
}

abbrev pub utf8 : Utf8
utf8 = record { to_str = λ s. some s; to_string_lossy = λ s. s }

abbrev pub world : Lock → World ℕ
world m = record {
  mutex = m;
  lives = λ c. if c == 3 then 1 else 0;
  next_cell = 4;
  next_box = 100;
  lib = 1;
}

-- A client that is open in `world`, and a port of it and one of a client that is gone.
abbrev pub client : Client
client = record { ptr = 7; cell = 3; has_handler = false }

abbrev pub port : ℕ → Port
port cell = record {
  spec = unowned;
  client_ptr = 7;
  port_ptr = 9;
  client_life = record { cell = cell };
}

-- Handlers whose state is a number: it counts the notifications, and the process handler quits at 0.
abbrev pub counting : NotificationHandler ℕ
counting = record trivial_notification {
  on_thread_init = λ c n. n + 1;
  on_latency = λ c m n. n + 10;
}

abbrev pub quitting : ProcessHandler ℕ
quitting = closure_process (λ c ps p. (if p == 0 then quit else continue, p - 1))

abbrev pub context : CallbackContext ℕ ℕ
context = record { client = client; notification = 5; process = 0 }

abbrev pub active : AsyncClient ℕ ℕ
active = record { callback = some (100, context) }
