-- ===== src/ConfProxy/Steps.antt =====
-- The registry of pkg/proxy/confProxy/etcd/etcd.go over any interleaving of readers and changes.
use mathlib.Core.Path.{subst}
use juno_agent.Base.{
  ℕ, ◌<◌, ◌≡◌, ◌≢◌, refl, sym, ap, ◌∙◌, ◌⊎◌, inl, inr, some, Bool, true, false, ◌||◌, List, [], ◌∷◌,
  ◌++◌, ◌==◌, ==_iff, if◌then◌else◌, Bool-cases, arith,
}
use juno_agent.Base.Text.{Bytes}
use juno_agent.ConfProxy.{ConfNode}
use juno_agent.ConfProxy.Listen.{
  Reader, before, waiting, received, timed_out, Registry, no_listener, set_chan, listen, begin,
  expire, begin_reader, expire_reader, send_reader, store_app_chan_info,
}
use juno_agent.ConfProxy.Waiting.{
  is_in, Distinct, is_told, told, left, answered, told-false, notify_lem,
}

-- A step: an application starts to listen, its select begins or its time is over, or a change of a
-- key is told.
pub data Step : Registry → Registry → Type 0 where
  listens : (key : Bytes) (r : Registry) → Step r (listen key r)
  begins : (i : ℕ) (r : Registry) → i < r.made → Step r (begin i r)
  expires : (i : ℕ) (r : Registry) → i < r.made → Step r (expire i r)
  changes :
      (key raw_key : Bytes) (val : ConfNode) (r r' : Registry)
      → store_app_chan_info key raw_key val r ≡ some r'
      → Step r r'

pub data Reach : Registry → Type 0 where
  start : Reach no_listener
  step : {r r' : Registry} → Reach r → Step r r' → Reach r'

-- The registered channels are distinct, and those that were made and are open; who waits, waits on an
-- open channel.
pub record IsOpen (r : Registry) : Type 0 where
  pub registered : (i : ℕ) → is_in i r.jm ≡ true → i < r.made
  pub distinct : Distinct r.jm
  pub open_chans : (i : ℕ) → is_in i r.jm ≡ true → (r.chans i).closed ≡ false
  pub kept : (i : ℕ) → i < r.made → (r.chans i).closed ≡ false → is_in i r.jm ≡ true
  pub waits : (i : ℕ) → (r.chans i).reader ≡ waiting → (i < r.made) × ((r.chans i).closed ≡ false)

is_in-append :
    (i : ℕ) (jm : List (Bytes × ℕ)) (k : Bytes) (j : ℕ)
    → is_in i (jm ++ ((k, j) ∷ [])) ≡ (is_in i jm || j == i)
is_in-append i [] k j = ground arith
is_in-append i ((k', j') ∷ jm) k j = ground (arith, is_in-append i jm k j)

Distinct-append :
    (jm : List (Bytes × ℕ)) (k : Bytes) (j : ℕ)
    → Distinct jm
    → is_in j jm ≡ false
    → Distinct (jm ++ ((k, j) ∷ []))
Distinct-append [] k j d h = (refl, tt)
Distinct-append ((k', j') ∷ jm) k j d h =
    (ground (arith, is_in-append j' jm k j, d.0, h), Distinct-append jm k j d.1 (ground (arith, h)))

module _ (key raw_key : Bytes) where
  send-waiting : (val : ConfNode) (x : Reader) → send_reader val x ≢ waiting
  send-waiting val before e = cc
  send-waiting val waiting e = cc
  send-waiting val (received v) e = cc
  send-waiting val timed_out e = cc

  left-is_in :
      (jm : List (Bytes × ℕ)) (i : ℕ) → is_in i (left key raw_key jm) ≡ true → is_in i jm ≡ true
  left-is_in [] i h = h
  left-is_in ((k, j) ∷ jm) i h = ground (arith, left-is_in jm i)

  left-told :
      (jm : List (Bytes × ℕ)) (i : ℕ)
      → Distinct jm
      → is_in i (left key raw_key jm) ≡ true
      → told key raw_key jm i ≡ false
  left-told [] i d h = refl
  left-told ((k, j) ∷ jm) i d h = elim (Bool-cases (j == i)) [
    | inl e ↦
        let p : is_in i jm ≡ false = sym (ap (λ n. is_in n jm) ((==_iff j i).0 e)) ∙ d.0 in
        ground (arith, told-false key raw_key jm i, p, left-is_in jm i)
    | inr e ↦ ground (arith, left-told jm i d.1, e)
  ]

  left-rest :
      (jm : List (Bytes × ℕ)) (i : ℕ)
      → is_in i jm ≡ true
      → told key raw_key jm i ≡ false
      → is_in i (left key raw_key jm) ≡ true
  left-rest [] i h f = h
  left-rest ((k, j) ∷ jm) i h f = ground (arith, left-rest jm i)

  Distinct-left : (jm : List (Bytes × ℕ)) → Distinct jm → Distinct (left key raw_key jm)
  Distinct-left [] d = tt
  Distinct-left ((k, j) ∷ jm) d = elim (Bool-cases (is_told key raw_key k)) [
    | inl t ↦ rw t (Distinct-left jm d.1)
    | inr t ↦ rw t (ground (arith, left-is_in jm j, d), Distinct-left jm d.1)
  ]

  -- What a change does to an open registry.
  store_lem :
      (val : ConfNode) (r : Registry)
      → IsOpen r
      → (r' : Registry) × (store_app_chan_info key raw_key val r ≡ some r')
        × (r'.jm ≡ left key raw_key r.jm)
        × (r'.made ≡ r.made)
        × ((i : ℕ)
            → r'.chans i ≡ (
                if told key raw_key r.jm i
                then answered key raw_key val (r.chans i)
                else r.chans i))
  unfolding store_app_chan_info
  store_lem val r h =
      let (chans, e, f) = notify_lem key raw_key val r.jm r.chans h.distinct h.open_chans in
      (
        record r { jm = left key raw_key r.jm; chans = chans },
        rw (store_app_chan_info, e) refl,
        refl,
        refl,
        f,
      )

  store-IsOpen :
      (val : ConfNode) (r r' : Registry)
      → IsOpen r
      → r'.jm ≡ left key raw_key r.jm
      → r'.made ≡ r.made
      → ((i : ℕ)
          → r'.chans i
            ≡ (if told key raw_key r.jm i then answered key raw_key val (r.chans i) else r.chans i))
      → IsOpen r'
  store-IsOpen val r r' h p q f = record {
    registered = λ i m.
        let a : i < r.made = h.registered i (left-is_in r.jm i (within i m)) in omega (arith, q);
    distinct = subst Distinct (sym p) (Distinct-left r.jm h.distinct);
    open_chans = λ i m. elim (split i) [
      | inl (t, e) ↦ absurd (cc (t, left-told r.jm i h.distinct (within i m)))
      | inr (t, e) ↦ ap (λ c. c.closed) e ∙ h.open_chans i (left-is_in r.jm i (within i m))
    ];
    kept = λ i m c. elim (split i) [
      | inl (t, e) ↦ absurd (cc (sym (ap (λ c. c.closed) e) ∙ c))
      | inr (t, e) ↦
          ap (is_in i) p
          ∙ left-rest r.jm i (h.kept i (omega (arith, q)) (sym (ap (λ c. c.closed) e) ∙ c)) t
    ];
    waits = λ i w. elim (split i) [
      | inl (t, e) ↦ absurd (send-waiting val (r.chans i).reader (sym (ap (λ c. c.reader) e) ∙ w))
      | inr (t, e) ↦
          let (a, b) = h.waits i (sym (ap (λ c. c.reader) e) ∙ w) in
          (omega (arith, q), ap (λ c. c.closed) e ∙ b)
    ];
  }
    where
      within : (i : ℕ) → is_in i r'.jm ≡ true → is_in i (left key raw_key r.jm) ≡ true
      within i m = sym (ap (is_in i) p) ∙ m

      split :
          (i : ℕ)
          → ((told key raw_key r.jm i ≡ true) × (r'.chans i ≡ answered key raw_key val (r.chans i)))
            ⊎ ((told key raw_key r.jm i ≡ false) × (r'.chans i ≡ r.chans i))
      split i = elim (Bool-cases (told key raw_key r.jm i)) [
        | inl t ↦ inl (t, rw t at (f i))
        | inr t ↦ inr (t, rw t at (f i))
      ]

listen-IsOpen : (key : Bytes) (r : Registry) → IsOpen r → IsOpen (listen key r)
unfolding listen
listen-IsOpen key r h = record {
  registered = λ i m. ground (arith, is_in-append i r.jm key r.made, h.registered i);
  distinct = Distinct-append r.jm key r.made h.distinct new;
  open_chans = λ i m. ground (arith, is_in-append i r.jm key r.made, h.open_chans i);
  kept = λ i m c. ground (arith, is_in-append i r.jm key r.made, h.kept i);
  waits = λ i w. ground (arith, h.waits i);
}
  where
    new : is_in r.made r.jm ≡ false
    new = elim (Bool-cases (is_in r.made r.jm)) [
      | inl e ↦ absurd (omega (arith, h.registered r.made e))
      | inr e ↦ e
    ]

begin-waiting : (c : Bool) (r : Reader) → begin_reader c r ≡ waiting → (c ≡ false) ⊎ (r ≡ waiting)
begin-waiting true before e = cc
begin-waiting false before e = inl refl
begin-waiting c waiting e = inr refl
begin-waiting c (received v) e = cc
begin-waiting c timed_out e = cc

expire-waiting : (r : Reader) → expire_reader r ≢ waiting
expire-waiting before e = cc
expire-waiting waiting e = cc
expire-waiting (received v) e = cc
expire-waiting timed_out e = cc

-- A reader that moves by itself leaves its channel open or closed.
read-IsOpen :
    (i : ℕ) (x : Reader) (r : Registry)
    → i < r.made
    → (x ≡ waiting → (r.chans i).closed ≡ false)
    → IsOpen r
    → IsOpen (record r { chans = set_chan i (record (r.chans i) { reader = x }) r.chans })
read-IsOpen i x r made stays h = record {
  registered = h.registered;
  distinct = h.distinct;
  open_chans = λ j m. same j ∙ h.open_chans j m;
  kept = λ j m c. h.kept j m (sym (same j) ∙ c);
  waits = λ j w. elim (Bool-cases (i == j)) [
    | inl e ↦
        let p : i ≡ j = (==_iff i j).0 e in
        (omega (arith, p), same j ∙ ap (λ n. (r.chans n).closed) (sym p) ∙ stays (rw e at w))
    | inr e ↦ let (a, b) = h.waits j (rw e at w) in (a, same j ∙ b)
  ];
}
  where
    same :
        (j : ℕ)
        → (set_chan i (record (r.chans i) { reader = x }) r.chans j).closed ≡ (r.chans j).closed
    same j = elim (Bool-cases (i == j)) [
      | inl e ↦ rw e (ap (λ n. (r.chans n).closed) ((==_iff i j).0 e))
      | inr e ↦ rw e refl
    ]

pub Step-IsOpen : (r r' : Registry) → Step r r' → IsOpen r → IsOpen r'
unfolding begin expire
Step-IsOpen r _ (listens key _) h = listen-IsOpen key r h
Step-IsOpen r _ (begins i _ made) h =
    read-IsOpen i (begin_reader (r.chans i).closed (r.chans i).reader) r made
      (λ e. elim (begin-waiting _ _ e) [ inl c ↦ c | inr w ↦ (h.waits i w).1 ]) h
Step-IsOpen r _ (expires i _ made) h =
    read-IsOpen i (expire_reader (r.chans i).reader) r made
      (λ e. absurd (expire-waiting (r.chans i).reader e)) h
Step-IsOpen r r' (changes key raw_key val _ _ e) h =
    let (r'', e', p, q, f) = store_lem key raw_key val r h in
    let same : r'' ≡ r' = cc (e, e') in
    subst IsOpen same (store-IsOpen key raw_key val r r'' h p q f)

pub Reach-IsOpen : (r : Registry) → Reach r → IsOpen r
Reach-IsOpen _ start = record {
  registered = λ i m. cc m;
  distinct = tt;
  open_chans = λ i m. refl;
  kept = λ i m c. absurd (omega arith);
  waits = λ i w. absurd (cc w);
}
Reach-IsOpen _ (step {r} {r'} reach st) = Step-IsOpen r r' st (Reach-IsOpen r reach)

-- Whatever applications have begun to listen, to wait or to give up, and whatever changes were told
-- before, in any order: a change of a key closes no channel a second time, which would panic; it
-- closes just the channels that are registered under the key or its raw key, gives its value to those
-- of their readers that wait, and leaves every other channel alone.
pub store_app_chan_info-answered :
    (key raw_key : Bytes) (val : ConfNode) (r : Registry)
    → Reach r
    → (r' : Registry) × (store_app_chan_info key raw_key val r ≡ some r')
      × ((i : ℕ)
          → r'.chans i
            ≡ (if told key raw_key r.jm i then answered key raw_key val (r.chans i) else r.chans i))
store_app_chan_info-answered key raw_key val r reach =
    let (r', e, p, q, f) = store_lem key raw_key val r (Reach-IsOpen r reach) in (r', e, f)

-- An application that waits, at any time, is registered on a channel that is open, so that the next
-- change of its key reaches it.
pub Reach-waiting :
    (r : Registry)
    → Reach r
    → (i : ℕ) → (r.chans i).reader ≡ waiting
    → (is_in i r.jm ≡ true) × ((r.chans i).closed ≡ false)
Reach-waiting r reach i w =
    let h = Reach-IsOpen r reach in let (made, c) = h.waits i w in (h.kept i made c, c)
