-- ===== src/Job/Delivery/Order.antt =====
-- Which events the worker handles, and in which order.
use juno_agent.Base.{
  ℕ, zero, suc, ◌≤◌, ◌≡◌, refl, sym, ap, ◌∙◌, Option, some, List, [], ◌∷◌, ◌++◌, if◌then◌else◌,
  length, take, append_assoc, append-nil, arith,
}
use mathlib.Core.Path.{subst}
use mathlib.Core.List.{Sublist, nil-sublist}
use mathlib.Core.List.Sublist
use juno_agent.Base.Text.{Bytes}
use juno_agent.Parser.Descriptor.{TimeText}
use juno_agent.Job.Types.{Job}
use juno_agent.Job.EtcdWatch.{Response, receive, watch_prefix}
use juno_agent.Job.EtcdWatch.Buffer.{take-all, take_in_lem, sent}
use juno_agent.Job.Worker.{Services, Worker}
use juno_agent.Job.Worker.Watch.{Event}
use juno_agent.Job.Delivery.{Action, respond, next_event, State, handle_next, step, run, handle_all}

module _ {A : Type 0} where
  take-Sublist : (n : ℕ) (xs : List A) → Sublist (take n xs) xs
  take-Sublist zero xs = nil-sublist xs
  take-Sublist (suc n) [] = nil-sublist []
  take-Sublist (suc n) (x ∷ xs) = Sublist.cons-cons x (take-Sublist n xs)

-- The responses of a run.
abbrev pub responses : List Action → List (Response Event)
responses [] = []
responses (respond n ∷ rest) = n ∷ responses rest
responses (next_event ∷ rest) = responses rest

-- The events that a response brings.
abbrev events_of : Response Event → List Event
events_of n = if n.failed then [] else n.events

module _ {S : Services} (lib : TimeText) (unmarshal : Bytes → Option Job) where
  -- Every response finds room in the channel for its events.
  abbrev pub HasRoom : List Action → State S → Type 0
  HasRoom [] s = Unit
  HasRoom (respond n ∷ rest) s =
      (length (s.watch.chan ++ events_of n) ≤ 100) × HasRoom rest (step lib unmarshal (respond n) s)
  HasRoom (next_event ∷ rest) s = HasRoom rest (step lib unmarshal next_event s)

  -- What holds of a run: the events that were handled and those in the channel, against those sent,
  -- and when a room was found for each of them.
  pub record Delivered (start : Option (Worker S)) (past : List Event) (room : Type 0) (s : State S)
      : Type 0 where
    pub handled : List Event
    pub in_order : Sublist (handled ++ s.watch.chan) past
    pub complete : room → handled ++ s.watch.chan ≡ past
    pub outcome : s.worker ≡ handle_all lib unmarshal handled start

  handle_all-append :
      (xs : List Event) (ev : Event) (w : Option (Worker S))
      → handle_all lib unmarshal (xs ++ ev ∷ []) w
        ≡ handle_next lib unmarshal ev (handle_all lib unmarshal xs w)
  unfolding handle_all
  handle_all-append [] ev w = refl
  handle_all-append (x ∷ xs) ev w = handle_all-append xs ev (handle_next lib unmarshal x w)

  module _ (start : Option (Worker S)) (room : Type 0) where
    respond-Delivered :
        (past : List Event) (n : Response Event) (s : State S)
        → length s.watch.chan ≤ 100
        → (room → length (s.watch.chan ++ events_of n) ≤ 100)
        → Delivered start past room s
        → Delivered start (past ++ events_of n) room (step lib unmarshal (respond n) s)
    unfolding step
    respond-Delivered past n s short fits d =
        let e = (take_in_lem s.watch n short).0 in
        let more = s.watch.chan ++ events_of n in
        let assoc = append_assoc d.handled s.watch.chan (events_of n) in
        record {
          handled = d.handled;
          in_order =
              subst (λ c. Sublist (d.handled ++ c) (past ++ events_of n)) (sym e)
                (Sublist.trans (Sublist.append (Sublist.refl d.handled) (take-Sublist 100 more)) (
                  subst (λ l. Sublist l (past ++ events_of n)) assoc
                    (Sublist.append d.in_order (Sublist.refl (events_of n)))));
          complete = λ r.
              ap (λ c. d.handled ++ c) (e ∙ take-all 100 more (fits r))
              ∙ sym assoc
              ∙ ap (λ l. l ++ events_of n) (d.complete r);
          outcome = d.outcome;
        }

    next-Delivered :
        (past : List Event) (s : State S)
        → length s.watch.chan ≤ 100
        → Delivered start past room s
        → Delivered start past room (step lib unmarshal next_event s)
          × (length (step lib unmarshal next_event s).watch.chan ≤ 100)
    unfolding step receive
    next-Delivered past s short d = go s.watch.chan refl
      where
        go :
            (chan : List Event)
            → s.watch.chan ≡ chan
            → Delivered start past room (step lib unmarshal next_event s)
              × (length (step lib unmarshal next_event s).watch.chan ≤ 100)
        go [] e = rw (step, receive, e) (d, short)
        go (ev ∷ chan) e =
            let assoc = append_assoc d.handled (ev ∷ []) chan in
            let same = ap (λ c. d.handled ++ c) e in
            rw (step, receive, e)
              (
                record {
                  handled = d.handled ++ ev ∷ [];
                  in_order = subst (λ l. Sublist l past) (same ∙ sym assoc) d.in_order;
                  complete = λ r. assoc ∙ sym same ∙ d.complete r;
                  outcome =
                      ap (handle_next lib unmarshal ev) d.outcome
                      ∙ sym (handle_all-append d.handled ev start);
                },
                omega (arith, rw e at short),
              )

    run-Delivered :
        (actions : List Action) (past : List Event) (s : State S)
        → length s.watch.chan ≤ 100
        → (room → HasRoom actions s)
        → Delivered start past room s
        → Delivered start (past ++ sent (responses actions)) room (run lib unmarshal actions s)
    unfolding run step
    run-Delivered [] past s short fits d =
        subst (λ l. Delivered start l room s) (sym (append-nil past)) d
    run-Delivered (respond n ∷ rest) past s short fits d =
        subst
          (λ l. Delivered start l room (run lib unmarshal rest (step lib unmarshal (respond n) s)))
          (append_assoc past (events_of n) (sent (responses rest)))
          (run-Delivered rest (past ++ events_of n) (step lib unmarshal (respond n) s)
            (take_in_lem s.watch n short).2 (λ r. (fits r).1)
            (respond-Delivered past n s short (λ r. (fits r).0) d))
    run-Delivered (next_event ∷ rest) past s short fits d =
        let (d', short') = next-Delivered past s short d in
        run-Delivered rest past (step lib unmarshal next_event s) short' fits d'

  abbrev pub begins : ℕ → Worker S → State S
  begins revision w = record { watch = watch_prefix revision; worker = some w }

  begins-Delivered :
      (w : Worker S) (revision : ℕ) (actions : List Action)
      → Delivered
          (some w)
          (sent (responses actions))
          (HasRoom actions (begins revision w))
          (run lib unmarshal actions (begins revision w))
  unfolding watch_prefix handle_all
  begins-Delivered w revision actions =
      run-Delivered (some w) (HasRoom actions (begins revision w)) actions [] (begins revision w)
        (omega arith) (λ r. r)
        (record { handled = []; in_order = Sublist.refl []; complete = λ r. refl; outcome = refl })

  -- However the responses of etcd and the loop of watchJobs interleave, the worker is what handling
  -- some events makes of it, one behind another, and those with the ones that are still in the channel
  -- are events that were sent, in the order in which they were.
  pub run-in_order :
      (w : Worker S) (revision : ℕ) (actions : List Action)
      → (handled : List Event) × Sublist
          (handled ++ (run lib unmarshal actions (begins revision w)).watch.chan)
          (sent (responses actions))
        × ((run lib unmarshal actions (begins revision w)).worker
            ≡ handle_all lib unmarshal handled (some w))
  run-in_order w revision actions =
      let d = begins-Delivered w revision actions in (d.handled, d.in_order, d.outcome)

  -- Where the channel has room for the events of every response, no event is lost: the worker is what
  -- handling the events sent makes of it, one behind another, but for those that are in the channel.
  pub run-handle_all :
      (w : Worker S) (revision : ℕ) (actions : List Action)
      → HasRoom actions (begins revision w)
      → (handled : List Event) × (handled
            ++ (run lib unmarshal actions (begins revision w)).watch.chan
          ≡ sent (responses actions))
        × ((run lib unmarshal actions (begins revision w)).worker
            ≡ handle_all lib unmarshal handled (some w))
  run-handle_all w revision actions room =
      let d = begins-Delivered w revision actions in (d.handled, d.complete room, d.outcome)
