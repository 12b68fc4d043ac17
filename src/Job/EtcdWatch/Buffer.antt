-- ===== src/Job/EtcdWatch/Buffer.antt =====
-- What a watch keeps of the events that it is sent.
use juno_agent.Base.{
  ℕ, zero, suc, ◌≤◌, ◌≡◌, refl, sym, ap, ◌∙◌, List, [], ◌∷◌, ◌++◌, ltb, if◌then◌else◌, length,
  length-append, take, Bool-cases, inl, inr, arith, append_assoc, append-nil,
}
use juno_agent.Job.EtcdWatch.{Response, Watch, send, send_all, advance, take_in, take_in_all}

abbrev pub later : ℕ → ℕ → ℕ
later r n = if ltb r n then n else r

module _ {E : Type 0} where
  -- The events of the responses that are no errors, in order.
  abbrev pub sent : List (Response E) → List E
  sent [] = []
  sent (n ∷ ns) = (if n.failed then [] else n.events) ++ sent ns

  -- The latest of a revision and those that the responses tell.
  abbrev pub latest : ℕ → List (Response E) → ℕ
  latest r [] = r
  latest r (n ∷ ns) = latest (later (later r n.compact_revision) n.header_revision) ns

  pub take-all : (n : ℕ) (xs : List E) → length xs ≤ n → take n xs ≡ xs
  take-all zero [] h = refl
  take-all zero (x ∷ xs) h = absurd (omega arith)
  take-all (suc n) [] h = refl
  take-all (suc n) (x ∷ xs) h = ap (λ t. x ∷ t) (take-all n xs (omega arith))

  take-full : (n : ℕ) (xs ys : List E) → length xs ≡ n → take n (xs ++ ys) ≡ xs
  take-full zero [] ys h = refl
  take-full zero (x ∷ xs) ys h = absurd (omega arith)
  take-full (suc n) [] ys h = absurd (omega arith)
  take-full (suc n) (x ∷ xs) ys h = ap (λ t. x ∷ t) (take-full n xs ys (omega arith))

  send_all_lem :
      (chan events : List E)
      → length chan ≤ 100
      → (send_all chan events ≡ take 100 (chan ++ events)) × (length (send_all chan events) ≤ 100)
  unfolding send_all
  send_all_lem chan [] h = (sym (ap (take 100) (append-nil chan) ∙ take-all 100 chan h), h)
  send_all_lem chan (ev ∷ events) h = elim (Bool-cases (ltb (length chan) 100)) [
    | inl t ↦
        let s : send chan ev ≡ chan ++ (ev ∷ []) = unfold send in rw t refl in
        let size : length (chan ++ (ev ∷ [])) ≤ 100 =
          ground (arith, length-append chan (ev ∷ [])) in
        let (e, l) = send_all_lem (chan ++ (ev ∷ [])) events size in
        rw s (e ∙ ap (take 100) (append_assoc chan (ev ∷ []) events), l)
    | inr t ↦
        let s : send chan ev ≡ chan = unfold send in rw t refl in
        let size : length chan ≡ 100 = ground arith in
        let (e, l) = send_all_lem chan events h in
        rw s (e ∙ take-full 100 chan events size ∙ sym (take-full 100 chan (ev ∷ events) size), l)
  ]

  -- Taking 100 events and then more of them is taking 100 of all.
  take-take : (n : ℕ) (xs ys : List E) → take n (take n xs ++ ys) ≡ take n (xs ++ ys)
  take-take zero xs ys = refl
  take-take (suc n) [] ys = refl
  take-take (suc n) (x ∷ xs) ys = ap (λ t. x ∷ t) (take-take n xs ys)

  pub take_in_lem :
      (w : Watch E) (n : Response E)
      → length w.chan ≤ 100
      → ((take_in w n).chan ≡ take 100 (w.chan ++ (if n.failed then [] else n.events)))
        × ((take_in w n).revision ≡ later (later w.revision n.compact_revision) n.header_revision)
        × (length (take_in w n).chan ≤ 100)
  unfolding take_in advance
  take_in_lem w n h = elim (Bool-cases n.failed) [
    | inl t ↦ rw t (sym (ap (take 100) (append-nil w.chan) ∙ take-all 100 w.chan h), refl, h)
    | inr t ↦ let (e, l) = send_all_lem w.chan n.events h in rw t (e, refl, l)
  ]

  -- While nobody reads the channel of a watch that holds at most 100 events, the responses of a
  -- connection leave in it the first 100 of the events that it held and that the responses without an
  -- error bring, in order, and the revision is the latest of those that the responses tell.
  pub take_in_all-take :
      (w : Watch E) (ns : List (Response E))
      → length w.chan ≤ 100
      → ((take_in_all w ns).chan ≡ take 100 (w.chan ++ sent ns))
        × ((take_in_all w ns).revision ≡ latest w.revision ns)
  unfolding take_in_all
  take_in_all-take w [] h = (sym (ap (take 100) (append-nil w.chan) ∙ take-all 100 w.chan h), refl)
  take_in_all-take w (n ∷ ns) h =
      let (e, r, l) = take_in_lem w n h in
      let (f, q) = take_in_all-take (take_in w n) ns l in
      (
        f
            ∙ ap (λ c. take 100 (c ++ sent ns)) e
            ∙ take-take 100 (w.chan ++ (if n.failed then [] else n.events)) (sent ns)
            ∙ ap (take 100) (append_assoc w.chan (if n.failed then [] else n.events) (sent ns)),
        q ∙ ap (λ r. latest r ns) r,
      )
