-- ===== src/Parser/Next/Search.antt =====
-- The search of Next, which repeats its pass, and Next itself.
use juno_agent.Base.{
  ℕ, zero, suc, ◌+◌, ◌*◌, ◌≤◌, ◌<◌, ◌≡◌, refl, ◌⊎◌, ap, Bool, true, false, arith, inl, inr, ltb,
  Bool-cases,
}
use juno_agent.Parser.Types.{SpecSchedule, Location}
use juno_agent.Parser.Calendar.{Time, IsTime, rank, add_second}
use juno_agent.Parser.Calendar.Steps.{days_in_bounds, add_second-IsTime, add_second-later}
use juno_agent.Parser.Next.{
  next, start_of, map_found, is_local, Pass, matched, wrapped, starved, Found, found, zero_time,
  exhausted, pass, search_from, search, upcoming, rounds,
}
use native.Mathlib.Decide.{dec_lt}
use juno_agent.Parser.Calendar.Between.{within_second}
use juno_agent.Parser.Next.Clock.{add_second-NextSecond}
use juno_agent.Parser.Next.Levels.{Once, ReadyMonth}
use juno_agent.Parser.Next.Round.{
  Matches, Lacks, join-Lacks, Passed, at_match, at_wrap, pass-Passed,
}

-- What a search up to a year answers: the first time that matches, if there is one.
pub data Answer (s : SpecSchedule) (limit : ℕ) (t : Time) : Found → Type 0 where
  at_time :
      (u : Time)
      → Matches s u
      → IsTime u
      → rank t ≤ rank u
      → Lacks s t u
      → Answer s limit t (found u)
  none :
      ((v : Time) → IsTime v → rank t ≤ rank v → v.year ≤ limit → ¬ (Matches s v))
      → Answer s limit t zero_time

Answer-earlier :
    (s : SpecSchedule) (limit : ℕ) (t u : Time) (f : Found)
    → rank t < rank u
    → Lacks s t u
    → Answer s limit u f
    → Answer s limit t f
Answer-earlier s limit t u _ le lack (at_time w m v r k) =
    at_time w m v (omega arith) (join-Lacks s t u w lack k)
Answer-earlier s limit t u _ le lack (none k) = none λ v q low top.
    elim (dec_lt (rank v) (rank u)) [
      | yes early ↦ lack v q low early
      | no late ↦ k v q (omega arith) top
    ]

rank_bound : (t : Time) → IsTime t → rank t < (t.year + 2) * 33177600
unfolding rank
rank_bound t v = omega (
  arith,
  v.month_high,
  days_in_bounds t.year t.month,
  v.day_high,
  v.hour_high,
  v.minute_high,
  v.second_high,
)

-- A year that is over has no more times.
year_le : (t u : Time) → IsTime t → IsTime u → rank u ≤ rank t → u.year ≤ t.year
unfolding rank
year_le t u v w h = omega (
  arith,
  days_in_bounds t.year t.month,
  days_in_bounds u.year u.month,
  v.month_high,
  v.day_high,
  v.hour_high,
  v.minute_high,
  v.second_high,
)

search_from_one :
    (n : ℕ) (s : SpecSchedule) (limit : ℕ) (t : Time) (a : Bool)
    → ltb limit t.year ≡ false
    → (p : Pass) → pass s t a ≡ p
    → search_from (suc n) s limit t a ≡ elim p [
      | matched u _ ↦ found u
      | wrapped u ↦ search_from n s limit u true
      | starved ↦ exhausted
    ]
unfolding search_from
search_from_one n s limit t a h p e = rw (h, e)

search_from_over :
    (n : ℕ) (s : SpecSchedule) (limit : ℕ) (t : Time) (a : Bool)
    → ltb limit t.year ≡ true
    → search_from (suc n) s limit t a ≡ zero_time
unfolding search_from
search_from_over n s limit t a h = rw h

-- A search goes on as its next pass tells.
search_from-pass :
    (n : ℕ) (s : SpecSchedule) (limit : ℕ) (t : Time) (a : Bool)
    → IsTime t
    → ltb limit t.year ≡ false
    → (limit + 2) * 33177600 < suc n + rank t
    → ((u : Time)
        → IsTime u
        → ReadyMonth s u
        → 1 ≤ n
        → (limit + 2) * 33177600 < n + rank u
        → Answer s limit u (search_from n s limit u true))
    → (p : Pass) → pass s t a ≡ p
    → Passed s t p
    → Answer s limit t (search_from (suc n) s limit t a)
search_from-pass n s limit t a v within h again _ e (at_match u b m v' r k) =
    rw (search_from_one n s limit t a within _ e) (at_time u m v' r k)
search_from-pass n s limit t a v within h again _ e (at_wrap u v' r w' k) =
    let bound : rank t < (limit + 2) * 33177600 = ground (arith, rank_bound t v) in
    rw (search_from_one n s limit t a within _ e)
      (Answer-earlier s limit t u _ r k (again u v' w' (omega arith) (omega arith)))

-- With a round for every second up to the end of the last year, a search answers.
search_from-Answer :
    (fuel : ℕ) (s : SpecSchedule) (limit : ℕ) (t : Time) (a : Bool)
    → IsTime t
    → Once (ReadyMonth s) t a
    → 1 ≤ fuel
    → (limit + 2) * 33177600 < fuel + rank t
    → Answer s limit t (search_from fuel s limit t a)
search_from-Answer zero s limit t a v w one h = absurd (omega arith)
search_from-Answer (suc n) s limit t a v w one h = elim (Bool-cases (ltb limit t.year)) [
  | inl over ↦
      rw (search_from_over n s limit t a over)
        (none λ u q low top. absurd (ground (arith, year_le u t q v)))
  | inr within ↦
      search_from-pass n s limit t a v within h
        (λ u v w. search_from-Answer n s limit u true v λ _. w) (pass s t a) refl
        (pass-Passed s t a v w)
]

upcoming-IsTime : (t : Time) → IsTime t → IsTime (upcoming t)
upcoming-IsTime t v = unfold upcoming add_second in ground (arith, add_second-IsTime t v)

upcoming-later : (t : Time) → IsTime t → rank t < rank (upcoming t)
unfolding upcoming rank
upcoming-later t v = omega (arith, add_second-later t v)

upcoming_least : (t v : Time) → IsTime t → IsTime v → rank t < rank v → rank (upcoming t) ≤ rank v
unfolding upcoming rank
upcoming_least t v p q h = elim (dec_lt (rank v) (rank (add_second t))) [
  | yes early ↦ absurd (
      ground (
        arith,
        within_second t v (add_second t) p q (omega arith) early (add_second-NextSecond t p),
      ))
  | no late ↦ omega arith
]

-- The search from a time ends within its rounds.
pub search-Answer :
    (s : SpecSchedule) (t : Time)
    → IsTime t
    → Answer s ((upcoming t).year + 5) (upcoming t) (search s t)
unfolding search rounds
search-Answer s t v =
    let u = upcoming t in
    search_from-Answer (rounds u) s (u.year + 5) u false (upcoming-IsTime t v) (λ e. absurd (cc e))
      (omega arith) (omega arith)

-- The two cases of an answer to a search.
module _ (s : SpecSchedule) (t : Time) (v : IsTime t) where
  FoundAt : Found → Type 0
  FoundAt f =
      (f ≡ zero_time) ⊎ ((u : Time) × (f ≡ found u) × Matches s u × IsTime u × (rank t < rank u))

  search-Matches : (f : Found) → Answer s ((upcoming t).year + 5) (upcoming t) f → FoundAt f
  unfolding FoundAt
  search-Matches _ (none k) = inl refl
  search-Matches _ (at_time u m w r k) = inr (u, refl, m, w, omega (arith, upcoming-later t v))

  search-Least :
      (w : Time)
      → IsTime w
      → rank t < rank w
      → w.year ≤ t.year + 5
      → Matches s w
      → (f : Found) → Answer s ((upcoming t).year + 5) (upcoming t) f
      → (u : Time) × (f ≡ found u) × Matches s u × (rank t < rank u) × (rank u ≤ rank w)
  search-Least w p later top m _ (none k) = absurd (
      k w p (upcoming_least t w v p later)
        (omega (
          arith,
          year_le (upcoming t) t (upcoming-IsTime t v) v (omega (arith, upcoming-later t v)),
        ))
        m)
  search-Least w p later top m _ (at_time u n q r k) = (
    u,
    refl,
    n,
    omega (arith, upcoming-later t v),
    elim (dec_lt (rank w) (rank u)) [
      | yes early ↦ absurd (k w p (upcoming_least t w v p later) early m)
      | no late ↦ omega arith
    ],
  )

-- The time from which a search starts is valid where t.In keeps times valid.
start_of-IsTime :
    (convert : Location → Time → Time)
    → ((l : Location) (t : Time) → IsTime t → IsTime (convert l t))
    → (s : SpecSchedule) (t : Time) → IsTime t
    → IsTime (start_of convert s t)
start_of-IsTime convert valid s t v = elim (Bool-cases (is_local s.location)) [
  | inl e ↦ rw e v
  | inr e ↦ rw e (valid s.location t v)
]

-- Next, where t.In keeps times valid, ends within its rounds: it answers the zero time, or a time
-- behind the given one (both read in the schedule's zone) whose month, day, hour, minute and second
-- the schedule names, brought back to the given time's zone.
pub next-Matches :
    (convert : Location → Time → Time)
    → ((l : Location) (t : Time) → IsTime t → IsTime (convert l t))
    → (s : SpecSchedule) (t : Time) → IsTime t
    → (next convert s t ≡ zero_time)
      ⊎ ((u : Time) × (next convert s t ≡ found (convert t.location u))
          × Matches s u
          × IsTime u
          × (rank (start_of convert s t) < rank u))
unfolding next FoundAt
next-Matches convert valid s t v =
    let b = start_of convert s t in
    let w = start_of-IsTime convert valid s t v in
    elim (search-Matches s b w (search s b) (search-Answer s b w)) [
      | inl e ↦ inl (ap (map_found (convert t.location)) e)
      | inr (u, e, m, w, r) ↦ inr (u, ap (map_found (convert t.location)) e, m, w, r)
    ]

-- Where t.In keeps times valid, and a valid time behind the given one (read in the schedule's zone),
-- in its year or one of the five years after, has its month, day, hour, minute and second named by
-- the schedule, Next finds a time that the schedule names so, behind the given one and no later than
-- that time, and answers it brought back to the given time's zone.
pub next-le :
    (convert : Location → Time → Time)
    → ((l : Location) (t : Time) → IsTime t → IsTime (convert l t))
    → (s : SpecSchedule) (t : Time) → IsTime t
    → (w : Time) → IsTime w
    → rank (start_of convert s t) < rank w
    → w.year ≤ (start_of convert s t).year + 5
    → Matches s w
    → (u : Time) × (next convert s t ≡ found (convert t.location u))
      × Matches s u
      × (rank (start_of convert s t) < rank u)
      × (rank u ≤ rank w)
unfolding next
next-le convert valid s t v w p later top m =
    let b = start_of convert s t in
    let q = start_of-IsTime convert valid s t v in
    let (u, e, n, r, k) = search-Least s b q w p later top m (search s b) (search-Answer s b q) in
    (u, ap (map_found (convert t.location)) e, n, r, k)
