-- ===== src/ConfProxy/Watch/Told.antt =====
-- A change of a configuration in etcd reaches the application that listens for it.
use juno_agent.Base.{
  ℕ, ◌≡◌, refl, ap, ◌∙◌, none, some, Bool, true, false, ◌||◌, ◌&&◌, ◌==◌, ==_iff, List, [], ◌∷◌,
  arith, All,
}
use juno_agent.Base.Text.{Bytes, text_eq, Lacks}
use juno_agent.ConfKey.{ConfKey, parser_conf_key, check_valid, key_of, parser_conf_key-key_of}
use juno_agent.ConfProxy.{ConfValue, get_config_key, check_value}
use juno_agent.ConfProxy.Update.{Outside, updated, conf_node, write_paths, write_node, update}
use juno_agent.ConfProxy.Listen.{
  Reader, before, waiting, received, Registry, begin, begin_reader, send_reader,
}
use juno_agent.ConfProxy.Waiting.{told, answered}
use juno_agent.ConfProxy.Steps.{Reach, store_app_chan_info-answered}
use juno_agent.ConfProxy.Watch.{Agent, put, put_updated, content, crashes, watch_reply}

-- A valid value under a valid key whose files can be written gives its node.
update-valid :
    (O : Outside) (c : ConfKey) (key value : Bytes) (v : ConfValue) (w w' : O.World)
    → parser_conf_key key ≡ some c
    → check_valid c ≡ none
    → O.parse_value value ≡ some v
    → check_value v ≡ none
    → write_paths O v.metadata.paths v.content w ≡ (true, w')
    → update O key value w ≡ (updated (conf_node c v), w')
unfolding update write_node
update-valid O c key value v w w' p q r s t = rw (update, p, q, r, s, t) refl

-- Whether a channel is registered under a key.
abbrev pub listens_for : Bytes → ℕ → List (Bytes × ℕ) → Bool
listens_for key i [] = false
listens_for key i ((k, j) ∷ jm) = (text_eq k key && j == i) || listens_for key i jm

told-listens_for :
    (key raw_key : Bytes) (i : ℕ) (jm : List (Bytes × ℕ))
    → listens_for key i jm ≡ true
    → told key raw_key jm i ≡ true
told-listens_for key raw_key i [] h = h
told-listens_for key raw_key i ((k, j) ∷ jm) h = ground (arith, told-listens_for key raw_key i jm)

begin_lem :
    (i : ℕ) (r : Registry)
    → ((begin i r).chans i).reader ≡ begin_reader (r.chans i).closed (r.chans i).reader
unfolding begin
begin_lem i r = rw ((==_iff i i).1 refl) refl

-- A select on a closed channel gets nil.
nil_of : {b : Bool} {x : Reader} → b ≡ true → x ≡ before → begin_reader b x ≡ received none
nil_of p q = rw (p, q) refl

abbrev pub common_key : ConfKey → Bytes
common_key c = get_config_key c.app_name c.env_name c.file_name c.port

-- A change that an agent takes in: a valid value under a valid key without further slashes, whose
-- files can be written.
module _ (O : Outside) (c : ConfKey) (value : Bytes) (v : ConfValue) (a : Agent O) (w : O.World)
    (parts : All
      (Lacks b'/')
      (c.prefix ∷ c.hostname ∷ c.app_name ∷ c.env_name ∷ c.rest ∷ c.file_name ∷ c.port ∷ []))
    (valid : check_valid c ≡ none) (parsed : O.parse_value value ≡ some v)
    (full : check_value v ≡ none)
    (written : write_paths O v.metadata.paths v.content a.world ≡ (true, w))
    (reach : Reach a.registry) (i : ℕ)
    (registered : listens_for (common_key c) i a.registry.jm ≡ true) where
  put-answered :
      (b : Agent O) × (put (key_of c) value a ≡ some b)
      × (b.registry.chans i
          ≡ answered (common_key c) (key_of c) (conf_node c v) (a.registry.chans i))
  unfolding put put_updated conf_node
  put-answered =
      let (r, e, f) =
        store_app_chan_info-answered (common_key c) (key_of c) (conf_node c v) a.registry reach in
      (
        record { registry = r; world = (O.report (key_of c) value w).1 },
        rw
            (
              put,
              update-valid O c (key_of c) value v a.world w (parser_conf_key-key_of c parts) valid
                  parsed full written,
            )
            (rw (put_updated, e) refl),
        f i ∙ rw (told-listens_for (common_key c) (key_of c) i a.registry.jm registered) refl,
      )

  -- When etcd puts a valid value under a valid key whose parts hold no slash, and its files can be
  -- written, then at any point of any interleaving an application that waits on the key's
  -- application, environment, file and port is answered the new content.
  pub put-content :
      (a.registry.chans i).reader ≡ waiting
      → (b : Agent O) × (put (key_of c) value a ≡ some b)
        × (watch_reply (b.registry.chans i).reader ≡ content v.content)
  unfolding watch_reply conf_node
  put-content waits =
      let (b, e, f) = put-answered in
      (
        b,
        e,
        ap (λ x. watch_reply x.reader) f
            ∙ ap (λ x. watch_reply (send_reader (conf_node c v) x)) waits,
      )

  -- When etcd puts a valid value under a valid key whose parts hold no slash, and its files can be
  -- written, while an application is registered for the key at any point of any interleaving and not
  -- yet in its select, the change is lost to it: its select then gets the nil of the closed channel,
  -- and dereferences it.
  pub put-crashes :
      (a.registry.chans i).reader ≡ before
      → (b : Agent O) × (put (key_of c) value a ≡ some b)
        × (watch_reply ((begin i b.registry).chans i).reader ≡ crashes)
  unfolding watch_reply begin
  put-crashes waits =
      let (b, e, f) = put-answered in
      let p : (b.registry.chans i).reader ≡ before =
        ap (λ x. x.reader) f ∙ ap (send_reader (conf_node c v)) waits in
      (b, e, ap watch_reply (begin_lem i b.registry ∙ nil_of (ap (λ x. x.closed) f) p))
