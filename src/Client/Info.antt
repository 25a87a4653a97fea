-- ===== src/Client/Info.antt =====
-- `ClientInfo` of src/client/client_impl.rs, which is what `Debug` prints of a client.
use rust_jack.Base.{ℕ, Option, none, List, Panics, map_returns, and_then}
use mathlib.Core.Option
use rust_jack.Enums.{Str}
use rust_jack.Strings.{Utf8}
use rust_jack.Client.{Client, ClientApi, sample_rate, buffer_size, frame_time}
use rust_jack.Client.State.{World}
use rust_jack.Client.Identity.{IdentityApi, name, ports}
use rust_jack.Client.Settings.{SettingsApi, cpu_load}

pub record ClientInfo : Type 0 where
  pub info_name : Str
  pub info_sample_rate : ℕ
  pub info_buffer_size : ℕ
  pub cpu_usage : Str
  pub info_ports : List Str
  pub info_frame_time : ℕ

module _ {L F : Type 0} (api : ClientApi L) (identity : IdentityApi L) (settings : SettingsApi L F)
    (utf8 : Utf8) (percent : F → Str) where
  -- `From<&Client> for ClientInfo`, with fuel to read the names of the ports; `percent x` is
  -- `format!("{}%", x / 100.0)`.
  unfoldable pub client_info : ℕ → Client → World L → Panics (Option (ClientInfo × World L))
  unfolding name ports sample_rate buffer_size frame_time cpu_load
  client_info fuel c w = and_then (name identity utf8 c w) λ client_name.
      map_returns
        (λ found.
          Option.map
            (λ r. (
              record {
                info_name = client_name;
                info_sample_rate = sample_rate api c w;
                info_buffer_size = buffer_size api c w;
                cpu_usage = percent (cpu_load settings c w);
                info_ports = r.0;
                info_frame_time = frame_time api c r.1;
              },
              r.1,
            ))
            found)
        (ports identity utf8 fuel c none none (record { bits = 0 }) w)
