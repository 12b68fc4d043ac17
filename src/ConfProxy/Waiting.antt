-- ===== src/ConfProxy/Waiting.antt =====
-- What becomes of the readers of pkg/proxy/confProxy: a change answers those that wait for it, each
-- once, and no channel is closed twice.
use juno_agent.Base.{
  ℕ, ◌≡◌, refl, sym, ap, ◌∙◌, inl, inr, some, Bool, true, false, ◌||◌, ◌&&◌, List, [], ◌∷◌, ◌==◌,
  ==_iff, if◌then◌else◌, Bool-cases, arith,
}
use juno_agent.Base.Text.{Bytes, text_eq}
use juno_agent.ConfProxy.{ConfNode}
use juno_agent.ConfProxy.Listen.{
  Reader, before, waiting, received, timed_out, Chan, set_chan, send_reader, close_reader,
  send_and_close, notify,
}

-- Whether a channel is registered.
abbrev pub is_in : ℕ → List (Bytes × ℕ) → Bool
is_in i [] = false
is_in i ((k, j) ∷ jm) = j == i || is_in i jm

abbrev pub Distinct : List (Bytes × ℕ) → Type 0
Distinct [] = Unit
Distinct ((k, i) ∷ jm) = (is_in i jm ≡ false) × Distinct jm

module _ (key raw_key : Bytes) where
  abbrev pub is_told : Bytes → Bool
  is_told k = text_eq k key || text_eq k raw_key

  -- Whether a change of the keys is told to a channel, and who is left registered.
  abbrev pub told : List (Bytes × ℕ) → ℕ → Bool
  told [] i = false
  told ((k, j) ∷ jm) i = (is_told k && j == i) || told jm i

  abbrev pub left : List (Bytes × ℕ) → List (Bytes × ℕ)
  left [] = []
  left ((k, j) ∷ jm) = if is_told k then left jm else (k, j) ∷ left jm

  -- A channel that a change is told to.
  abbrev pub answered : ConfNode → Chan → Chan
  answered val c = record { reader = send_reader val c.reader; closed = true }

  -- A reader that was sent a value, or does not wait, gets nothing from the end of the channel.
  close-send : (val : ConfNode) (r : Reader) → close_reader (send_reader val r) ≡ send_reader val r
  close-send val before = refl
  close-send val waiting = refl
  close-send val (received v) = refl
  close-send val timed_out = refl

  send_and_close_lem :
      (val : ConfNode) (c : Chan) → c.closed ≡ false → send_and_close val c ≡ some (answered val c)
  unfolding send_and_close
  send_and_close_lem val c h =
      rw h (ap (λ r. some (record { reader = r; closed = true })) (close-send val c.reader))

  pub told-false : (jm : List (Bytes × ℕ)) (i : ℕ) → is_in i jm ≡ false → told jm i ≡ false
  told-false [] i h = refl
  told-false ((k, j) ∷ jm) i h = ground (arith, told-false jm i)

  notify-told :
      (val : ConfNode) (k : Bytes) (j : ℕ) (jm : List (Bytes × ℕ)) (chans : ℕ → Chan)
      → is_told k ≡ true
      → (chans j).closed ≡ false
      → notify key raw_key val ((k, j) ∷ jm) chans
        ≡ notify key raw_key val jm (set_chan j (answered val (chans j)) chans)
  unfolding notify
  notify-told val k j jm chans t h = rw (notify, t) (rw (send_and_close_lem val (chans j) h) refl)

  -- What a change does: it panics on no registry of distinct open channels.
  pub notify_lem :
      (val : ConfNode) (jm : List (Bytes × ℕ)) (chans : ℕ → Chan)
      → Distinct jm
      → ((i : ℕ) → is_in i jm ≡ true → (chans i).closed ≡ false)
      → (chans' : ℕ → Chan) × (notify key raw_key val jm chans ≡ some (left jm, chans'))
        × ((i : ℕ) → chans' i ≡ (if told jm i then answered val (chans i) else chans i))
  unfolding notify
  notify_lem val [] chans d open_all = (chans, refl, λ i. refl)
  notify_lem val ((k, j) ∷ jm) chans d open_all = elim (Bool-cases (is_told k)) [
    | inl t ↦
        let (chans', e, h) =
          notify_lem val jm (set_chan j (answered val (chans j)) chans) d.1 still in
        (
          chans',
          notify-told val k j jm chans t (open_all j (ground arith)) ∙ e ∙ rw t refl,
          λ i. rw t (after i _ (h i)),
        )
    | inr t ↦
        let (chans', e, h) = notify_lem val jm chans d.1 (λ i m. open_all i (ground arith)) in
        (chans', rw (notify, t) (rw e refl), λ i. rw t (h i))
  ]
    where
      still :
          (i : ℕ) → is_in i jm ≡ true → (set_chan j (answered val (chans j)) chans i).closed ≡ false
      still i m = elim (Bool-cases (j == i)) [
        | inl e ↦ absurd (ground (arith, d.0, m, e))
        | inr e ↦ rw e (open_all i (ground arith))
      ]

      after :
          (i : ℕ) (c : Chan)
          → c ≡ (
              if told jm i
              then answered val (set_chan j (answered val (chans j)) chans i)
              else set_chan j (answered val (chans j)) chans i)
          → c ≡ (if (j == i) || told jm i then answered val (chans i) else chans i)
      after i c q = elim (Bool-cases (j == i)) [
        | inl e ↦
            let p : j ≡ i = (==_iff j i).0 e in
            let gone : told jm i ≡ false = told-false jm i (sym (ap (λ n. is_in n jm) p) ∙ d.0) in
            let sent : c ≡ answered val (chans j) = q ∙ rw (gone, e) refl in
            rw e (sent ∙ ap (λ n. answered val (chans n)) p)
        | inr e ↦ q ∙ rw e refl
      ]
