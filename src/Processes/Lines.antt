-- ===== src/Processes/Lines.antt =====
-- What is read of the lines that ps writes.
use juno_agent.Base.{
  ℕ, ◌≡◌, ◌≢◌, refl, sym, ap, ◌∙◌, some, true, List, [], ◌∷◌, ◌++◌, map, length, All, All-append,
  arith,
}
use juno_agent.Base.Text.{Bytes, Lacks, split, split-append}
use juno_agent.Processes.{ProcessStatus, cut_after, split_after_n, process_of, scan_lines, scan}

cut_after-append :
    (b : ℕ) (w s : Bytes) → Lacks b w → cut_after b (w ++ b ∷ s) ≡ some (w ++ b ∷ [], s)
unfolding cut_after
cut_after-append b [] s h = ground arith
cut_after-append b (c ∷ w) s h = ground (arith, cut_after-append b w s h.1)

-- Words with a space behind each, and then a text.
abbrev spaced : List Bytes → Bytes → Bytes
spaced [] text = text
spaced (w ∷ ws) text = w ++ b' ' ∷ spaced ws text

split_after_n-spaced :
    (ws : List Bytes) (text : Bytes)
    → All (Lacks b' ') ws
    → split_after_n b' ' (spaced ws text) (length ws) ≡ map (λ w. w ++ b' ' ∷ []) ws ++ text ∷ []
unfolding split_after_n
split_after_n-spaced [] text h = refl
split_after_n-spaced (w ∷ ws) text h =
    rw (split_after_n, cut_after-append b' ' w (spaced ws text) h.0)
      (ap (λ t. (w ++ b' ' ∷ []) ∷ t) (split_after_n-spaced ws text h.1))

spaced-Lacks :
    (b : ℕ) (ws : List Bytes) (text : Bytes)
    → b ≢ b' '
    → All (Lacks b) ws
    → Lacks b text
    → Lacks b (spaced ws text)
spaced-Lacks b [] text n h t = t
spaced-Lacks b (w ∷ ws) text n h t =
    All-append _ w _ h.0 ((λ e. n (sym e)), spaced-Lacks b ws text n h.1 t)

-- The columns before the command.
abbrev pub columns : ProcessStatus → List Bytes
columns p = p.user ∷ p.pid ∷ p.cpu ∷ p.mem ∷ p.vsz ∷ p.rss ∷ p.tty ∷ p.stat ∷ p.start ∷ p.time ∷ []

-- The lines of ps for processes, single spaces between the columns and a line feed behind each.
abbrev pub write_rows : List ProcessStatus → Bytes
write_rows [] = []
write_rows (p ∷ ps) = spaced (columns p) p.command ++ b'\n' ∷ write_rows ps

-- Columns without spaces and line feeds, and a command without line feeds.
pub record IsRow (p : ProcessStatus) : Type 0 where
  pub words : All (Lacks b' ') (columns p)
  pub lines : All (Lacks b'\n') (columns p)
  pub command : Lacks b'\n' p.command

-- A process whose columns have kept the space behind them.
abbrev pub with_spaces : ProcessStatus → ProcessStatus
with_spaces p = record {
  user = p.user ++ b' ' ∷ [];
  pid = p.pid ++ b' ' ∷ [];
  cpu = p.cpu ++ b' ' ∷ [];
  mem = p.mem ++ b' ' ∷ [];
  vsz = p.vsz ++ b' ' ∷ [];
  rss = p.rss ++ b' ' ∷ [];
  tty = p.tty ++ b' ' ∷ [];
  stat = p.stat ++ b' ' ∷ [];
  start = p.start ++ b' ' ∷ [];
  time = p.time ++ b' ' ∷ [];
  command = p.command;
}

process_of-spaced :
    (p : ProcessStatus)
    → IsRow p
    → process_of (split_after_n b' ' (spaced (columns p) p.command) 10) ≡ some (with_spaces p)
unfolding process_of
process_of-spaced p h = ap process_of (split_after_n-spaced (columns p) p.command h.words)

scan_lines-write_rows :
    (ps : List ProcessStatus)
    → All IsRow ps
    → scan_lines (split b'\n' (write_rows ps)) ≡ map with_spaces ps
unfolding scan_lines process_of split
scan_lines-write_rows [] h = refl
scan_lines-write_rows (p ∷ ps) h =
    ap scan_lines (
      split-append b'\n' (spaced (columns p) p.command) (write_rows ps)
        (spaced-Lacks b'\n' (columns p) p.command (omega arith) h.0.lines h.0.command))
    ∙ rw (scan_lines, process_of-spaced p h.0)
        (ap (λ t. with_spaces p ∷ t) (scan_lines-write_rows ps h.1))

-- From the lines of ps, columns without spaces and line feeds and commands without line feeds, the
-- scan reads every process in order, with its command as it is and a space at the end of every other
-- column.
pub scan-write_rows :
    (ps : List ProcessStatus)
    → All IsRow ps
    → scan true (some (write_rows ps)) ≡ some (map with_spaces ps)
unfolding scan
scan-write_rows ps h = ap some (scan_lines-write_rows ps h)
