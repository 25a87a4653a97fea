-- ===== src/Examples/SetTransport.antt =====
-- examples/set_transport.rs: a transport command of the command line.
pub mod Laws
mod Tests
use rust_jack.Base.{
  ℕ, ◌+◌, ◌%◌, ◌^◌, Bool, true, false, ltb, Option, none, some, List, [], ◌∷◌, if◌then◌else◌,
  Result, ok, err, Panics, returns, panics, map_returns, and_then, unwrap,
}
use rust_jack.Enums.{Str}
use rust_jack.Strings.{codes}
use rust_jack.Life.{Lives}
use rust_jack.Floats.{Floats}
use rust_jack.Metadata.Maps.{same_str}
use rust_jack.Transport.Bbt.{TransportBbt, default_bbt, validated, with_bpm, with_bbt, with_timesig}
use rust_jack.Transport.Position.{JackPosition, frame, set_frame, bbt, set_bbt, default_position}
use rust_jack.Transport.Control.{TransportApi, Transport, start, stop, reposition, query}

-- `expect`
abbrev pub expect {ℓ κ} : {A : Type ℓ} {E : Type κ} → Result A E → Panics A
expect (ok a) = returns a
expect (err e) = panics

-- `u32` addition: a build with overflow checks panics, one without wraps.
abbrev pub add_u32 : Bool → ℕ → ℕ → Panics ℕ
add_u32 checks a b =
    if ltb (a + b) (2 ^ 32)
    then returns (a + b)
    else if checks
    then panics
    else returns ((a + b) % 2 ^ 32)

-- `str::parse` of the standard library.
pub record Parses (F32 F64 : Type 0) : Type 0 where
  pub parse_f64 : Str → Option F64
  pub parse_f32 : Str → Option F32
  pub parse_usize : Str → Option ℕ

-- `args.next().expect(..).parse().expect(..)`, and the arguments behind.
abbrev pub next_as : {A : Type 0} → (Str → Option A) → List Str → Panics (A × List Str)
next_as parse [] = panics
next_as parse (s ∷ args) = map_returns (λ a. (a, args)) (unwrap (parse s))

-- What a command leaves for the end of `main`: nothing, a new bar, beat and tick, or the return behind
-- an unknown command.
pub data Command (F32 F64 : Type 0) : Type 0 where
  no_bbt : Command F32 F64
  new_bbt : TransportBbt F32 F64 → Command F32 F64
  unknown : Str → Command F32 F64

-- How `main` ends: the usage is printed without arguments and for an unknown command.
pub data Ended : Type 0 where
  finished printed_usage : Ended
  printed_unknown : Str → Ended

module _ {F32 F64 W : Type 0} (fl : Floats F32 F64) (api : TransportApi F32 F64 W)
    (parses : Parses F32 F64) (lives : Lives) (transport : Transport) where
  open parses use {parse_f64, parse_f32, parse_usize}

  -- The `match` on the command, over the arguments behind it.
  unfoldable pub command : Str → List Str → TransportBbt F32 F64 → W → Panics (Command F32 F64 × W)
  unfolding start stop
  command cmd args b w =
      if same_str cmd (codes "start")
      then (let (r, w') = start api (default_position fl) lives transport w in
          map_returns (λ _. (no_bbt, w')) (expect r))
      else if same_str cmd (codes "stop")
      then (let (r, w') = stop api (default_position fl) lives transport w in
          map_returns (λ _. (no_bbt, w')) (expect r))
      else if same_str cmd (codes "bpm")
      then map_returns (λ x. (new_bbt (with_bpm x.0 b), w)) (next_as parse_f64 args)
      else if same_str cmd (codes "locate")
      then and_then (next_as parse_usize args) (λ bar. and_then (next_as parse_usize bar.1) λ beat.
        map_returns (λ tick. (new_bbt (with_bbt bar.0 beat.0 tick.0 b), w))
          (next_as parse_usize beat.1))
      else if same_str cmd (codes "sig")
      then and_then (next_as parse_f32 args) (λ num.
        map_returns (λ denom. (new_bbt (with_timesig num.0 denom.0 b), w))
          (next_as parse_f32 num.1))
      else returns (unknown cmd, w)

  -- The end of `main`, with the position that was queried and moved on.
  unfoldable pub apply : Command F32 F64 → JackPosition F32 F64 → W → Panics (Ended × W)
  unfolding set_bbt reposition
  apply no_bbt pos w = returns (finished, w)
  apply (unknown c) pos w = returns (printed_unknown c, w)
  apply (new_bbt b) pos w = and_then (expect (validated fl b)) λ b'.
      let (r, pos') = set_bbt fl (some b') pos in
      and_then (expect r) λ _.
        let (r', w') = reposition api (default_position fl) lives transport pos' w in
        map_returns (λ _. (finished, w')) (expect r')

  abbrev pub or_default : Option (TransportBbt F32 F64) → TransportBbt F32 F64
  or_default none = default_bbt fl
  or_default (some b) = b

  -- `main`, behind the opening of the client, over the arguments that follow the program's name.
  unfoldable pub set_transport : Bool → List Str → W → Panics (Ended × W)
  unfolding query bbt frame set_frame command apply
  set_transport checks [] w = returns (printed_usage, w)
  set_transport checks (cmd ∷ args) w =
      let (r, w') = query api (default_position fl) lives transport w in
      and_then (expect r) λ queried.
        let b = or_default (bbt fl queried.position) in
        and_then (add_u32 checks (frame queried.position) 44100)
          λ n. and_then (command cmd args b w') λ c. apply c.0 (set_frame n queried.position) c.1
