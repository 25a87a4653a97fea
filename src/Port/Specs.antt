-- ===== src/Port/Specs.antt =====
-- The port types of src/port/audio.rs and src/port/midi.rs, and the sample slices of audio ports.
use rust_jack.Base.{ℕ, ◌==◌, if◌then◌else◌, Panics, returns, panics}
use rust_jack.Enums.{Str}
use rust_jack.Strings.{codes}
use rust_jack.Scope.{ProcessScope}
use rust_jack.Port.{PortFlags, PortSpec, Port, PortApi, buffer}

-- `RAW_MIDI_TYPE` and `FLOAT_MONO_AUDIO`
abbrev pub raw_midi_type : Str
raw_midi_type = codes "8 bit raw midi"

abbrev pub float_mono_audio : Str
float_mono_audio = codes "32 bit float mono audio"

-- `PortFlags::IS_INPUT` and `PortFlags::IS_OUTPUT`
abbrev pub is_input : PortFlags
is_input = record { bits = 1 }

abbrev pub is_output : PortFlags
is_output = record { bits = 2 }

abbrev pub audio_in : PortSpec
audio_in = record {
  jack_port_type = float_mono_audio;
  jack_flags = is_input;
  jack_buffer_size = returns 0;
}

abbrev pub audio_out : PortSpec
audio_out = record {
  jack_port_type = float_mono_audio;
  jack_flags = is_output;
  jack_buffer_size = returns 0;
}

abbrev pub midi_in : PortSpec
midi_in = record {
  jack_port_type = raw_midi_type;
  jack_flags = is_input;
  jack_buffer_size = returns 0;
}

abbrev pub midi_out : PortSpec
midi_out = record {
  jack_port_type = raw_midi_type;
  jack_flags = is_output;
  jack_buffer_size = returns 0;
}

-- A slice is its address and its number of samples.
pub record Slice : Type 0 where
  pub start : ℕ
  pub count : ℕ

module _ {W : Type 0} (api : PortApi W) (p : Port) (ps : ProcessScope) where
  -- `as_slice`, and `as_mut_slice` of an output port. Both assert that port and scope belong to one
  -- client.
  unfoldable pub as_slice : W → Panics Slice
  unfolding buffer
  as_slice w =
      if p.client_ptr == ps.client_ptr
      then returns (record { start = buffer api p ps.n_frames w; count = ps.n_frames })
      else panics

  unfoldable pub as_mut_slice : W → Panics Slice
  unfolding buffer
  as_mut_slice w =
      if p.client_ptr == ps.client_ptr
      then returns (record { start = buffer api p ps.n_frames w; count = ps.n_frames })
      else panics
