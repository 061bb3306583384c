-- ===== src/Shell/Format.antt =====
-- The texts of cli/src/shell.rs: sizes, frequencies and the line about a processor, and
-- `join_child_path` and `parent_path`. Floating point is a parameter, with how Rust writes it; so is
-- what libp2p reads and writes of peer ids.
use puppypeer.Prelude.{
  ℕ, zero, suc, ◌+◌, ◌/◌, ◌%◌, ◌==◌, Bool, Option, none, some, List, [], ◌∷◌, ◌++◌, Text, codes,
  text_eq, ltb, leb, if◌then◌else◌, Result,
}
use puppypeer.FilePath.{slash, join, parent}
use puppypeer.State.{PeerId}
use puppypeer.Wire.{CpuInfo}
use puppypeer.Shell.{PeerCpuView, selected_cpu}
use puppypeer.Shell.Peers.{Display}

-- `show decimals x` is `{:.decimals}`, `show_f32` the same of an `f32` by its bits.
pub record Outside : Type 1 where
  pub display : Display
  pub parse_peer : Text → Result PeerId
  pub F64 : Type 0
  pub of_u64 : ℕ → F64
  pub at_least : F64 → ℕ → Bool
  pub divided : F64 → ℕ → F64
  pub show : ℕ → F64 → Text
  pub show_f32 : ℕ → ℕ → Text
  pub show_time : ℕ → Text

-- A number in decimal digits: 20 are enough for a `u64`.
digits : ℕ → ℕ → Text
digits zero n = []
digits (suc fuel) n =
    let front = digits fuel (n / 10) in
    if ltb n 10 then (b'0' + n) ∷ [] else front ++ (b'0' + n % 10) ∷ []

unfoldable pub decimal : ℕ → Text
unfolding digits
decimal n = digits 20 n

unfoldable pub join_child_path : Text → Text → Text
join_child_path base child = if text_eq base slash then slash ++ child else join base child

abbrev pub or_root : Option Text → Text
or_root none = slash
or_root (some p) = if text_eq p [] then slash else p

unfoldable pub parent_path : Text → Text
parent_path path = if text_eq path slash then slash else or_root (parent path)

module _ (outside : Outside) where
  open outside use {F64, of_u64, at_least, divided, show, show_f32}

  -- The loop of `format_size` over the units above the first; the text is that of the unit reached.
  scaled : F64 → Text → List Text → Text
  scaled value unit [] = show 1 value ++ codes " " ++ unit
  scaled value unit (u ∷ us) =
      let larger = scaled (divided value 1024) u us in
      if at_least value 1024 then larger else show 1 value ++ codes " " ++ unit

  unfoldable pub format_size : ℕ → Text
  unfolding scaled
  format_size size =
      if at_least (of_u64 size) 1024
      then scaled (divided (of_u64 size) 1024) (codes "KiB")
          (codes "MiB" ∷ codes "GiB" ∷ codes "TiB" ∷ [])
      else decimal size ++ codes " B"

  unfoldable pub format_frequency : ℕ → Text
  format_frequency freq_mhz =
      if freq_mhz == 0
      then codes "0 MHz"
      else if leb 1000 freq_mhz
      then show 2 (divided (of_u64 freq_mhz) 1000) ++ codes " GHz"
      else decimal freq_mhz ++ codes " MHz"

  abbrev pub summary_of : Text → Option CpuInfo → Text
  summary_of peer_id none = codes "No CPUs reported for " ++ peer_id
  summary_of peer_id (some cpu) =
      codes cpu.name
      ++ codes ": "
      ++ show_f32 1 cpu.usage
      ++ codes "% @ "
      ++ format_frequency cpu.frequency_hz

  unfoldable pub cpu_summary : PeerCpuView → Text
  cpu_summary view = summary_of view.peer_id (selected_cpu view)
