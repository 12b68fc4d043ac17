-- ===== src/Job/Keys/RoundTrip.antt =====
-- The keys that are written are read back.
use juno_agent.Base.{
  ℕ, zero, suc, ◌+◌, ◌-◌, ◌*◌, ◌/◌, ◌%◌, ◌^◌, ◌<◌, ◌≡◌, refl, ap, ◌∙◌, ◌++◌, some, List, [], ◌∷◌,
  inl, inr, ltb, Bool-cases, arith, All-append,
}
use juno_agent.Base.Text.{Bytes, codes, split, join, Lacks, split-join}
use juno_agent.Job.Keys.{
  Process, digits, format_uint, parse_digits, parse_uint, process_key, get_proc_from_key,
}

digits-Lacks : (fuel n : ℕ) → Lacks b'/' (digits fuel n)
unfolding digits
digits-Lacks zero n = tt
digits-Lacks (suc fuel) n = elim (Bool-cases (ltb n 10)) [
  | inl e ↦ rw e (omega arith, tt)
  | inr e ↦
      rw e (All-append _ (digits fuel (n / 10)) _ (digits-Lacks fuel (n / 10)) (omega arith, tt))
]

-- Digits that are appended are read behind the rest.
parse_digits-append :
    (s : Bytes) (d n m : ℕ)
    → parse_digits s n ≡ m
    → m < 2 ^ 64 - 1
    → 0 < m
    → d < 10
    → m * 10 + d < 2 ^ 64
    → parse_digits (s ++ ((b'0' + d) ∷ [])) n ≡ m * 10 + d
unfolding parse_digits
parse_digits-append [] d n m e h z k b = ground arith
parse_digits-append (c ∷ s) d n m e h z k b =
    ground (arith, parse_digits-append s d (n * 10 + (c - b'0')) m)

parse_digits-digits : (fuel n : ℕ) → n < fuel → n < 2 ^ 64 → parse_digits (digits fuel n) 0 ≡ n
unfolding digits parse_digits
parse_digits-digits zero n h b = absurd (omega arith)
parse_digits-digits (suc fuel) n h b = elim (Bool-cases (ltb n 10)) [
  | inl e ↦ rw e (ground arith)
  | inr e ↦ rw e (
      parse_digits-append (digits fuel (n / 10)) (n % 10) 0 (n / 10)
        (parse_digits-digits fuel (n / 10) (ground arith) (omega arith)) (omega arith)
        (ground arith) (omega arith) (omega arith)
      ∙ omega arith)
]

parse_uint-digits : (s : Bytes) → parse_uint s ≡ parse_digits s 0
unfolding parse_uint parse_digits
parse_uint-digits [] = refl
parse_uint-digits (c ∷ s) = refl

-- A 64-bit number is read back from its decimal text.
pub parse_uint-format_uint : (n : ℕ) → n < 2 ^ 64 → parse_uint (format_uint n) ≡ n
unfolding format_uint
parse_uint-format_uint n b =
    parse_uint-digits (digits (n + 1) n) ∙ parse_digits-digits (n + 1) n (omega arith) b

-- A process whose job, node and pid hold no slash and whose task is a 64-bit number is read back
-- from its key.
pub get_proc_from_key-process_key :
    (p : Process)
    → Lacks b'/' p.job_id
    → Lacks b'/' p.node_id
    → Lacks b'/' p.id
    → p.task_id < 2 ^ 64
    → get_proc_from_key (process_key p) ≡ some p
unfolding get_proc_from_key process_key join format_uint
get_proc_from_key-process_key p j n i b =
    rw (split_key) (ap (λ t. some (record p { task_id = t })) (parse_uint-format_uint p.task_id b))
  where
    parts : List Bytes
    parts =
        codes "juno"
        ∷ codes "cronjob"
        ∷ codes "proc"
        ∷ p.job_id
        ∷ format_uint p.task_id
        ∷ p.node_id
        ∷ p.id
        ∷ []

    split_key : split b'/' (process_key p) ≡ [] ∷ parts
    split_key = split-join b'/' [] parts (
      tt,
      (
        ground arith,
        (ground arith, (ground arith, (j, (digits-Lacks (p.task_id + 1) p.task_id, (n, (i, tt)))))),
      ),
    )
