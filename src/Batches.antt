-- ===== src/Batches.antt =====
-- The batches of messages of pkg/mbus/rocketmq/mq.go. The channel and the timer of a second are the
-- sequence of what the select meets.
use juno_agent.Base.{
  ℕ, zero, suc, ◌≤◌, ◌≡◌, refl, Option, none, some, List, [], ◌∷◌, ◌++◌, leb, if◌then◌else◌, length,
  replicate, le→leb, length-append, length-replicate, arith,
}

-- What the select meets: a message, or the end of the second.
pub data Arrival (M : Type 0) : Type 0 where
  message : M → Arrival M
  tick : Arrival M

-- A batch with what arrives behind it, or a select that still waits. A message that is nil is `none`.
pub data Batch (M : Type 0) : Type 0 where
  batch : List (Option M) → List (Arrival M) → Batch M
  waiting : Batch M

module _ {M : Type 0} where
  -- The loop of batchMessages.
  unfoldable pub fill : ℕ → List (Option M) → List (Arrival M) → Batch M
  fill size msgs [] = waiting
  fill size msgs (message m ∷ rest) =
      let more = msgs ++ some m ∷ [] in
      let next = fill size more rest in if leb size (length more) then batch more rest else next
  fill size msgs (tick ∷ rest) = batch msgs rest

  -- batchMessages: the slice is made with as many nils as it is to have messages.
  unfoldable pub batch_messages : ℕ → List (Arrival M) → Batch M
  unfolding fill
  batch_messages size arrivals = fill size (replicate size none) arrivals

  -- The messages of a batch.
  abbrev pub messages : List (Option M) → List M
  messages [] = []
  messages (none ∷ ms) = messages ms
  messages (some m ∷ ms) = m ∷ messages ms

  -- The messages among the first arrival.
  abbrev pub first_message : List (Arrival M) → List M
  first_message [] = []
  first_message (message m ∷ rest) = m ∷ []
  first_message (tick ∷ rest) = []

  nils : (n : ℕ) (ms : List (Option M)) → messages (replicate n none ++ ms) ≡ messages ms
  nils zero ms = refl
  nils (suc n) ms = nils n ms

  only_nils : (n : ℕ) → messages (replicate n none) ≡ []
  only_nils zero = refl
  only_nils (suc n) = only_nils n

  -- Once anything arrives, a batch is made of it at once: it holds the message that arrived, or none
  -- at the end of the second, behind as many nils as messages were asked for.
  pub batch_messages_lem :
      (size : ℕ) (a : Arrival M) (rest : List (Arrival M))
      → (msgs : List (Option M)) × (batch_messages size (a ∷ rest) ≡ batch msgs rest)
        × (messages msgs ≡ first_message (a ∷ rest))
        × (size ≤ length msgs)
  unfolding batch_messages
  batch_messages_lem size tick rest = (
    replicate size none,
    refl,
    only_nils size,
    omega (arith, length-replicate {A = Option M} size none),
  )
  batch_messages_lem size (message m) rest =
      let msgs = replicate size none ++ some m ∷ [] in
      let long : size ≤ length msgs = omega (
        arith,
        length-append (replicate size none) (some m ∷ []),
        length-replicate {A = Option M} size none,
      ) in
      (msgs, rw (le→leb size (length msgs) long) refl, nils size (some m ∷ []), long)
