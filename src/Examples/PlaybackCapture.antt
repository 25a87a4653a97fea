-- ===== src/Examples/PlaybackCapture.antt =====
-- examples/playback_capture.rs: its process callback and the lines that its notification handler prints.
pub mod Laws
mod Tests
use rust_jack.Base.{
  ℕ, Bool, List, ◌∷◌, ◌==◌, if◌then◌else◌, Panics, returns, panics, map_returns, and_then,
}
use rust_jack.Enums.{Str, ClientStatus, LatencyType, capture, playback, Control, continue}
use rust_jack.Strings.{codes}
use rust_jack.Scope.{ProcessScope}
use rust_jack.Port.{Port, PortApi}
use rust_jack.Port.Specs.{Slice, as_slice, as_mut_slice}
use rust_jack.Client.Callbacks.{NotificationHandler}

-- `clone_from_slice` of the standard library panics if the lengths differ. The memory is a part of
-- `W`, and `clone d s n` copies `n` samples from `s` to `d`.
abbrev pub clone_from_slice : {W : Type 0} → (ℕ → ℕ → ℕ → W → W) → Slice → Slice → W → Panics W
clone_from_slice clone out from w =
    if out.count == from.count then returns (clone out.start from.start from.count w) else panics

module _ {W : Type 0} (port_api : PortApi W) (clone : ℕ → ℕ → ℕ → W → W) where
  -- The closure `process_callback`, with the four ports that it owns.
  unfoldable pub pass_on : Port → Port → Port → Port → ProcessScope → W → Panics (Control × W)
  pass_on in_a in_b out_a out_b ps w = and_then (as_mut_slice port_api out_a ps w) λ out_a_p.
      and_then (as_mut_slice port_api out_b ps w) λ out_b_p.
        and_then (as_slice port_api in_a ps w) λ in_a_p.
          and_then (as_slice port_api in_b ps w) λ in_b_p.
            and_then (clone_from_slice clone out_a_p in_a_p w)
              λ w'. map_returns (λ w''. (continue, w'')) (clone_from_slice clone out_b_p in_b_p w')

-- A call of `println!`, by its text and the arguments that it formats.
pub data Line : Type 0 where
  text : Str → Line
  with_status : Str → ClientStatus → Str → Line
  with_word : Str → Str → Line
  with_number : Str → ℕ → Line
  with_word_name : Str → Str → Str → Line
  with_word_number : Str → Str → ℕ → Line
  with_number_names : Str → ℕ → Str → Str → Line
  with_numbers_word : Str → ℕ → ℕ → Str → Line

abbrev pub choice : Bool → Str → Str → Str
choice b yes_word no_word = if b then yes_word else no_word

abbrev pub latency_word : LatencyType → Str
latency_word capture = codes "capture"
latency_word playback = codes "playback"

-- `impl NotificationHandler for Notifications`; the state is what was printed, the last line first.
abbrev pub notifications : NotificationHandler (List Line)
notifications = record {
  on_thread_init = λ c out. text (codes "JACK: thread init") ∷ out;
  on_shutdown = λ status reason out.
      with_status (codes "JACK: shutdown with status {:?} because \"{}\"") status reason ∷ out;
  on_freewheel = λ c is_enabled out.
      with_word (codes "JACK: freewheel mode is {}") (choice is_enabled (codes "on") (codes "off"))
      ∷ out;
  on_sample_rate =
      λ c srate out. (continue, with_number (codes "JACK: sample rate changed to {}") srate ∷ out);
  on_client_registration = λ c name is_reg out.
      with_word_name (codes "JACK: {} client with name \"{}\"")
        (choice is_reg (codes "registered") (codes "unregistered")) name
      ∷ out;
  on_port_registration = λ c port_id is_reg out.
      with_word_number (codes "JACK: {} port with id {}")
        (choice is_reg (codes "registered") (codes "unregistered")) port_id
      ∷ out;
  on_port_rename = λ c port_id old_name new_name out. (
    continue,
    with_number_names (codes "JACK: port with id {} renamed from {} to {}") port_id old_name
          new_name
        ∷ out,
  );
  on_ports_connected = λ c port_id_a port_id_b are_connected out.
      with_numbers_word (codes "JACK: ports with id {} and {} are {}") port_id_a port_id_b
        (choice are_connected (codes "connected") (codes "disconnected"))
      ∷ out;
  on_graph_reorder = λ c out. (continue, text (codes "JACK: graph reordered") ∷ out);
  on_xrun = λ c out. (continue, text (codes "JACK: xrun occurred") ∷ out);
  on_latency =
      λ c mode out. with_word (codes "JACK: {} latency has changed") (latency_word mode) ∷ out;
}
