-- ===== src/Health/Laws.antt =====
-- When a health check returns, and how often a node is pinged.
use juno_agent.Base.{
  ℕ, zero, suc, ◌+◌, ◌*◌, ◌≤◌, ◌≡◌, refl, sym, ap, ◌∙◌, Bool, true, false, ◌||◌, List, [], ◌∷◌,
  ◌++◌, ◌==◌, ltb, if◌then◌else◌, length, length-append, take, drop, All, arith, append_assoc,
  append-nil,
}
use juno_agent.Base.Text.{Bytes}
use juno_agent.Health.{
  ResHealthCheck, returned, spinning, gather, health_check, check_node, check_rounds,
}

-- The same of one result more.
later :
    (m : ℕ) (results : List ResHealthCheck) (res : ResHealthCheck) (arriving : List ResHealthCheck)
    → (if ltb (length arriving) (suc m)
        then spinning ((results ++ (res ∷ [])) ++ arriving)
        else returned ((results ++ (res ∷ [])) ++ take (suc m) arriving) (drop (suc m) arriving))
      ≡ (if ltb (suc (length arriving)) (suc (suc m))
          then spinning (results ++ (res ∷ arriving))
          else returned (results ++ (res ∷ take (suc m) arriving)) (drop (suc m) arriving))
later m results res arriving =
    rw
      (
        append_assoc results (res ∷ []) arriving,
        append_assoc results (res ∷ []) (take (suc m) arriving),
      )
      (ground arith)

-- A loop that has fewer results than it wants gathers the first ones that it still wants.
gather_lem :
    (more : ℕ) (results arriving : List ResHealthCheck)
    → gather (length results + suc more) results arriving ≡ (
        if ltb (length arriving) (suc more)
        then spinning (results ++ arriving)
        else returned (results ++ take (suc more) arriving) (drop (suc more) arriving))
unfolding gather
gather_lem more results [] =
    let few : ltb 0 (suc more) ≡ true = ground arith in
    rw few (ap spinning (sym (append-nil results)))
gather_lem zero results (res ∷ arriving) = ground (arith, length-append results (res ∷ []))
gather_lem (suc m) results (res ∷ arriving) =
    let size : length (results ++ (res ∷ [])) ≡ length results + 1 =
      length-append results (res ∷ []) in
    let more : (length (results ++ (res ∷ [])) == length results + suc (suc m)) ≡ false =
      ground (arith, size) in
    let same : length results + suc (suc m) ≡ length (results ++ (res ∷ [])) + suc m =
      omega (arith, size) in
    rw more (
      ap (λ n. gather n (results ++ (res ∷ [])) arriving) same
      ∙ gather_lem m (results ++ (res ∷ [])) arriving
      ∙ later m results res arriving)

-- A loop that has more results than it wants spins.
gather_over :
    (wanted : ℕ) (results arriving : List ResHealthCheck)
    → wanted ≤ length results
    → gather wanted results arriving ≡ spinning (results ++ arriving)
unfolding gather
gather_over wanted results [] h = ap spinning (sym (append-nil results))
gather_over wanted results (res ∷ arriving) h =
    let size : length (results ++ (res ∷ [])) ≡ length results + 1 =
      length-append results (res ∷ []) in
    let over : (length (results ++ (res ∷ [])) == wanted) ≡ false = ground (arith, size) in
    rw over (
      gather_over wanted (results ++ (res ∷ [])) arriving (omega (arith, size))
      ∙ ap spinning (append_assoc results (res ∷ []) arriving))

-- A health check returns just when it has at least one thing to check and as many results arrive in
-- the channel: then it returns the first of them, in their order, and leaves the others. Otherwise it
-- receives all that ever arrive and goes on for ever, also when it has nothing to check.
pub health_check_lem :
    (check_datas : List (Bytes × Bytes)) (arriving : List ResHealthCheck)
    → health_check check_datas arriving ≡ (
        if length check_datas == 0 || ltb (length arriving) (length check_datas)
        then spinning arriving
        else returned (take (length check_datas) arriving) (drop (length check_datas) arriving))
unfolding health_check
health_check_lem [] arriving = gather_over 0 [] arriving (omega arith)
health_check_lem (d ∷ check_datas) arriving =
    ap (λ n. gather n [] arriving) (omega arith)
    ∙ gather_lem (length check_datas) [] arriving
    ∙ ground arith

-- While no round comes before the second `late`, which is 60 for each of the rounds behind the next
-- check time or later, every round pings the node, however shortly it was pinged before.
pub check_rounds-length :
    (rounds : List (ℕ × Bool)) (next : ℕ)
    → (late : ℕ) → All (λ r. late ≤ r.0) rounds
    → next + 60 * length rounds ≤ late
    → check_rounds rounds next ≡ length rounds
unfolding check_rounds check_node
check_rounds-length [] next late h le = refl
check_rounds-length ((now, alive) ∷ rounds) next late h le =
    let due : ltb now next ≡ false = ground arith in
    rw due (
      ap suc
        (check_rounds-length rounds (next + (if alive then 60 else 3)) late h.1 (ground arith)))
