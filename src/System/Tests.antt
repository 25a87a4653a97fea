-- ===== src/System/Tests.antt =====
-- A program at concrete values, which opens a client and drops it again.
use rust_jack.Base.{
  suc, false, ℕ, ◌+◌, ◌-◌, ◌≡◌, refl, ◌≢◌, [], ◌∷◌, arith, ◌==◌, if◌then◌else◌, pos, negsuc, ok,
  err,
}
use rust_jack.Enums.{client_is_no_longer_alive}
use rust_jack.Port.{check_client_life}
use rust_jack.Client.{Client, ClientApi, new, drop_client, open_with, opened, close, close_checked}
use rust_jack.Client.State.{free, release_life}
use rust_jack.Client.Effects.{Counted}
use rust_jack.Client.Samples.{lib, activating, port}
use rust_jack.Transport.Position.{JackPosition}
use rust_jack.Transport.Control.{TransportApi, with_client}
use rust_jack.Port.{Port, port_from_raw}
use rust_jack.Client.State.{done}
use rust_jack.Port.Specs.{audio_in}
use rust_jack.Client.{transport}
use rust_jack.Client.Ports.{register_port, register_with}
use rust_jack.System.Dropped.{drop_client-register_port}
use rust_jack.System.{System, Step, opens, drops, Starts, Reach, start, go_on}
use rust_jack.System.Soundness.{IsSound}
use rust_jack.System.Invariant.{Reach-IsSound}
use rust_jack.System.Lifetime.{stay, more, gone_for_good}

-- A server that counts its clients, and closes one as long as there is one.
abbrev server : ClientApi ℕ
server = record lib { jack_client_close = λ c n. if n == 0 then (negsuc 0, 0) else (pos 0, n - 1) }

server_closes :
    (n : ℕ) → (server.jack_client_close 7 n).0 ≡ pos 0 → (server.jack_client_close 7 n).1 + 1 ≡ n
server_closes n h = ground (arith, h)

server_refuses :
    (n : ℕ) → (server.jack_client_close 7 n).0 ≢ pos 0 → (server.jack_client_close 7 n).1 ≡ n
server_refuses n h = ground (arith, h)

server_opens_something : (n : ℕ) → ◌≡◌ {A = ℕ} 7 0 → n + 1 ≡ n
server_opens_something n h = omega (arith, h)

abbrev counted_server : Counted server (activating (pos 0) (pos 0))
counted_server = record {
  open_count = λ n. n;
  opens = λ s options l h. refl;
  opens_nothing = λ s options n h. server_opens_something n h;
  closes = λ c n h. server_closes n h;
  refuses = λ c n h. server_refuses n h;
  connects = λ c s d l. refl;
  activates = λ c l. refl;
  deactivates = λ c l. refl;
  registers = λ slot c box l. refl;
}

abbrev before : System ℕ ℕ ℕ
before = record {
  world = record { mutex = free; lives = λ d. 0; next_cell = 3; next_box = 0; lib = 0 };
  clients = [];
  active = [];
  leaked = [];
  unclosed = 0;
}

abbrev opened_client : Client
opened_client = record { ptr = 7; cell = 3; has_handler = false }

abbrev during : System ℕ ℕ ℕ
during = record {
  world = record {
    mutex = free;
    lives = λ d. if d == 3 then 1 else 0;
    next_cell = 4;
    next_box = 0;
    lib = 1;
  };
  clients = opened_client ∷ [];
  active = [];
  leaked = [];
  unclosed = 0;
}

abbrev after : System ℕ ℕ ℕ
after = record {
  world = release_life 3 (record during.world { lib = 0 });
  clients = [];
  active = [];
  leaked = [];
  unclosed = 0;
}

starts : Starts server (activating (pos 0) (pos 0)) counted_server before
starts = record {
  unlocked = refl;
  no_lives = λ d. refl;
  no_clients = refl;
  no_active = refl;
  no_leaked = refl;
  none_unclosed = refl;
  none_open = refl;
}

open_step : Step server (activating (pos 0) (pos 0)) counted_server before during
unfolding new open_with opened
open_step = opens [] 0 opened_client (record { bits = 0 }) during.world refl

reach_during : Reach server (activating (pos 0) (pos 0)) counted_server during
reach_during = go_on (start starts) open_step

drop_step : Step server (activating (pos 0) (pos 0)) counted_server during after
unfolding drop_client close close_checked
drop_step = drops opened_client [] [] after.world refl refl

reach_after : Reach server (activating (pos 0) (pos 0)) counted_server after
reach_after = go_on reach_during drop_step

-- Another client is opened after that.
abbrev again : System ℕ ℕ ℕ
again = record after {
  world = record after.world {
    lib = 1;
    next_cell = 5;
    lives = λ d. if d == 4 then 1 else after.world.lives d;
  };
  clients = record { ptr = 7; cell = 4; has_handler = false } ∷ [];
}

open_again : Step server (activating (pos 0) (pos 0)) counted_server after again
unfolding new open_with opened
open_again =
    opens [] 0 (record { ptr = 7; cell = 4; has_handler = false }) (record { bits = 0 }) again.world
      refl

Reach-IsSound_example : IsSound server (activating (pos 0) (pos 0)) counted_server after
Reach-IsSound_example = Reach-IsSound server (activating (pos 0) (pos 0)) counted_server reach_after

gone_for_good_example : check_client_life again.world.lives (port 3) ≡ err client_is_no_longer_alive
gone_for_good_example =
    gone_for_good server (activating (pos 0) (pos 0)) counted_server (port 3) reach_after
      (omega arith) refl (more stay open_again)

-- A transport whose state counts the calls, with numbers for the floats.
abbrev control : TransportApi ℕ ℕ ℕ
control = record {
  jack_transport_start = λ c w. suc w;
  jack_transport_stop = λ c w. suc w;
  jack_transport_reposition = λ c p w. (pos 0, suc w);
  jack_transport_locate = λ c f w. (pos 0, suc w);
  jack_transport_query = λ c p w. (0, p, suc w);
}

abbrev zeroed : JackPosition ℕ ℕ
zeroed = record {
  unique_1 = 0;
  usecs = 0;
  frame_rate = 0;
  frame = 0;
  valid = 0;
  bar = 0;
  beat = 0;
  tick = 0;
  bar_start_tick = 0;
  beats_per_bar = 0;
  beat_type = 0;
  ticks_per_beat = 0;
  beats_per_minute = 0;
  frame_time = 0;
  next_time = 0;
  bbt_offset = 0;
  audio_frames_per_video_frame = 0;
  video_offset = 0;
  padding = [];
  unique_2 = 0;
}

abbrev registered : Port
registered = record {
  spec = audio_in;
  client_ptr = 7;
  port_ptr = 9;
  client_life = record { cell = 3 };
}

register_step :
    register_port server opened_client [] audio_in during.world ≡ done (ok registered) during.world
unfolding register_port register_with port_from_raw
register_step = refl

drop_returns : drop_client server opened_client during.world ≡ done tt after.world
unfolding drop_client close close_checked
drop_returns = refl

drop_client-register_port_example :
    (check_client_life during.world.lives registered ≡ ok tt)
    × ((with_client control zeroed during.world.lives
          (transport server opened_client)
          (λ c n. (c, suc n))
          5).0
        ≡ ok 7)
    × (check_client_life again.world.lives registered ≡ err client_is_no_longer_alive)
    × (with_client control zeroed again.world.lives
          (transport server opened_client)
          (λ c n. (c, suc n))
          5
        ≡ (err client_is_no_longer_alive, 5))
drop_client-register_port_example =
    drop_client-register_port server (activating (pos 0) (pos 0)) counted_server control zeroed
      (λ c n. (c, suc n)) 5 opened_client [] [] [] audio_in during.world during.world after.world
      registered reach_during refl register_step drop_returns (more stay open_again)
