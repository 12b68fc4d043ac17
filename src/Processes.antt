-- ===== src/Processes.antt =====
-- The scan of the machine's processes, pkg/process/process.go. The output of the command ps is a
-- parameter; `none` is its error.
pub mod Lines
use mathlib.Core.Option
use juno_agent.Base.{
  ℕ, zero, suc, Option, none, some, Bool, true, false, List, [], ◌∷◌, ◌++◌, ◌==◌, if◌then◌else◌,
}
use juno_agent.Base.Text.{Bytes, split}
use juno_agent.Base.Dict.{Dict}
use juno_agent.Engine.{update_processes}

pub record ProcessStatus : Type 0 where
  pub user : Bytes
  pub pid : Bytes
  pub cpu : Bytes
  pub mem : Bytes
  pub vsz : Bytes
  pub rss : Bytes
  pub tty : Bytes
  pub stat : Bytes
  pub start : Bytes
  pub time : Bytes
  pub command : Bytes

-- The text up to the first separator, with it, and what is behind it.
unfoldable pub cut_after : ℕ → Bytes → Option (Bytes × Bytes)
cut_after b [] = none
cut_after b (c ∷ s) =
    if c == b then some (c ∷ [], s) else Option.map (λ p. (c ∷ p.0, p.1)) (cut_after b s)

-- strings.SplitAfterN, with at most one item more than the number.
unfoldable pub split_after_n : ℕ → Bytes → ℕ → List Bytes
unfolding cut_after
split_after_n b s zero = s ∷ []
split_after_n b s (suc n) = elim (cut_after b s) [
  | none ↦ s ∷ []
  | some (item, rest) ↦ item ∷ split_after_n b rest n
]

-- The items of a line, where there are 11.
unfoldable pub process_of : List Bytes → Option ProcessStatus
process_of (i0 ∷ i1 ∷ i2 ∷ i3 ∷ i4 ∷ i5 ∷ i6 ∷ i7 ∷ i8 ∷ i9 ∷ i10 ∷ []) = some (record {
  user = i0;
  pid = i1;
  cpu = i2;
  mem = i3;
  vsz = i4;
  rss = i5;
  tty = i6;
  stat = i7;
  start = i8;
  time = i9;
  command = i10;
})
process_of _ = none

-- The loop over the lines.
unfoldable pub scan_lines : List Bytes → List ProcessStatus
unfolding split_after_n process_of
scan_lines [] = []
scan_lines (line ∷ lines) = elim (process_of (split_after_n b' ' line 10)) [
  | none ↦ scan_lines lines
  | some p ↦ p ∷ scan_lines lines
]

unfoldable pub scan : Bool → Option Bytes → Option (List ProcessStatus)
unfolding scan_lines split
scan enable output =
    if enable
    then elim output [ none ↦ none | some text ↦ some (scan_lines (split b'\n' text)) ]
    else some []
