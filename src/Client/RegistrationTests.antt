-- ===== src/Client/RegistrationTests.antt =====
-- A library that only remembers the pointers given to its callbacks, and a client that is activated
-- and deactivated with it.
use rust_jack.Base.{
  ℕ, ◌≡◌, refl, ◌≢◌, Option, none, some, List, [], ◌∷◌, if◌then◌else◌, ◌==◌, pos, ok,
}
use rust_jack.Client.{ClientApi}
use rust_jack.Client.State.{free, World, done}
use rust_jack.Client.Callbacks.{Callback, set_all, registered}
use rust_jack.Client.Async.{ActivationApi, AsyncClient, async_new, deactivate}
use rust_jack.Client.Registration.{
  is_slot, Recorded, Accepted, async_new-handler_of, handler_of-deactivate,
}
use rust_jack.Client.Samples.{client}

abbrev Recording : Type 0
Recording = ℕ → Callback → Option ℕ

abbrev closing_nothing : ClientApi Recording
closing_nothing = record {
  jack_client_open = λ s options l. (7, 0, l);
  jack_client_close = λ c l. (pos 0, l);
  jack_connect = λ c s d l. (pos 0, l);
  jack_disconnect = λ c s d l. (pos 0, l);
  jack_port_disconnect = λ c p l. (pos 0, l);
  jack_port_unregister = λ c p l. (pos 0, l);
  jack_port_register = λ c s t f size l. (9, l);
  jack_port_by_id = λ c i l. i;
  jack_port_by_name = λ c s l. 0;
  jack_port_is_mine = λ c p l. pos 1;
  jack_port_request_monitor_by_name = λ c s b l. (pos 0, l);
  jack_set_buffer_size = λ c b l. (pos 0, l);
  jack_get_buffer_size = λ c l. 256;
  jack_get_sample_rate = λ c l. 48000;
  jack_frame_time = λ c l. 5;
  jack_frames_to_time = λ c f l. f;
  jack_time_to_frames = λ c t l. t;
  status_from_bits = λ b. none;
}

abbrev recording : ActivationApi Recording
recording = record {
  jack_activate = λ c l. (pos 0, l);
  jack_deactivate = λ c l. (pos 0, l);
  set_callback =
      λ slot c box l. (pos 0, λ d slot'. if is_slot c slot d slot' then some box else l d slot');
}

abbrev recorded : Recorded recording
recorded = record {
  handler_of = λ l. l;
  sets = λ slot c box l d slot'. refl;
  activates = λ c l d slot. refl;
  deactivates = λ c l d slot. refl;
}

-- Client 5 was given box 50 for everything.
abbrev with_another : World Recording
with_another = record {
  mutex = free;
  lives = λ d. 1;
  next_cell = 4;
  next_box = 100;
  lib = λ d slot. if d == 5 then some 50 else none;
}

all-Accepted :
    (slots : List Callback) (c box : ℕ) (l : Recording) → Accepted recording slots c box l
all-Accepted [] c box l = tt
all-Accepted (s ∷ slots) c box l =
    (refl, all-Accepted slots c box (recording.set_callback s c box l).1)

async_new-handler_of_example :
    (v : World Recording) × (async_new {N = ℕ} {P = ℕ} closing_nothing recording client 1 2
        with_another
      ≡ done
          (ok (record {
            callback = some (100, record { client = client; notification = 1; process = 2 });
          }))
          v)
    × ((slot : Callback) → v.lib 7 slot ≡ some 100)
    × ((d : ℕ) (slot : Callback) → d ≢ 7 → v.lib d slot ≡ with_another.lib d slot)
    × (v.next_box ≡ 101)
unfolding set_all
async_new-handler_of_example =
    async_new-handler_of closing_nothing recording recorded client 1 2 with_another refl
      (all-Accepted registered 7 100 with_another.lib) refl

handler_of-deactivate_example :
    (a : AsyncClient ℕ ℕ) × (v v' : World Recording) × (async_new {N = ℕ} {P = ℕ} closing_nothing
        recording client 1 2 with_another
      ≡ done (ok a) v)
    × (deactivate closing_nothing recording a v ≡ done (ok (client, 1, 2)) v')
    × ((slot : Callback) → v'.lib 7 slot ≡ some 100)
    × ((d : ℕ) (slot : Callback) → d ≢ 7 → v'.lib d slot ≡ with_another.lib d slot)
unfolding set_all
handler_of-deactivate_example =
    handler_of-deactivate closing_nothing recording recorded client 1 2 with_another refl
      (all-Accepted registered 7 100 with_another.lib) refl refl
