-- ===== src/Nginx/Tracking.antt =====
-- What a change of a file makes of the configurations of nginx that the engine holds.
use mathlib.Core.Option
use juno_agent.Base.{
  Option, none, some, Bool, true, false, ◌≡◌, refl, sym, ap, ◌∙◌, ◌⊎◌, inl, inr, List, [], ◌∷◌,
  if◌then◌else◌, Bool-cases, Option-cases,
}
use juno_agent.Base.Text.{Bytes, codes, text_eq, text_eq_iff, has_suffix}
use juno_agent.Base.Dict.{Dict, lookup, insert, lookup-insert, lookup-remove}
use juno_agent.Engine.{update_program}
use juno_agent.Nginx.{
  NginxConfExt, FileOp, create, write, remove, other, parse_file, changed, file_event, watch_event,
  update_nginx_program, tell, follow,
}

pub other_path :
    (name n : Bytes)
    → has_suffix name (codes ".conf") ≡ true
    → has_suffix n (codes ".conf") ≡ false
    → text_eq n name ≡ false
other_path name n h t = elim (Bool-cases (text_eq n name)) [
  | inl e ↦ absurd (cc ((text_eq_iff n name).0 e, t, h))
  | inr e ↦ e
]

-- The statuses that store.
abbrev pub Stores : Bytes → Type 0
Stores status = (status ≡ codes "create") ⊎ (status ≡ codes "update") ⊎ (status ≡ codes "list")

if-same {ℓ} : {A : Type ℓ} (b : Bool) (x : A) → x ≡ (if b then x else x)
if-same true x = refl
if-same false x = refl

module _ {B : Type 0} where
  -- The block that is cached for a name.
  abbrev pub block_at : Bytes → Dict (NginxConfExt B) → Option B
  block_at name programs = Option.map (λ conf. conf.block) (lookup name programs)

  -- What one change of a file makes of its block: a text that is parsed replaces it.
  abbrev pub refreshed : FileOp → Option B → Option B → Option B
  refreshed create (some block) old = some block
  refreshed create none old = old
  refreshed write (some block) old = some block
  refreshed write none old = old
  refreshed remove new old = none
  refreshed other new old = old

  -- The block of a file after changes of files, those of others passed over.
  abbrev pub after :
      (Bytes → Option B)
      → Bytes
      → Option B
      → List ((Bytes → Option Bytes) × Bytes × FileOp)
      → Option B
  after parse name old [] = old
  after parse name old ((read, n, op) ∷ events) =
      after parse name
        (if text_eq n name then refreshed op (parse_file parse read name) old else old) events

  inserted :
      (name n : Bytes) (conf : NginxConfExt B) (programs : Dict (NginxConfExt B))
      → block_at name (insert n conf programs)
        ≡ (if text_eq n name then some conf.block else block_at name programs)
  inserted name n conf programs =
      let e = ap (Option.map (λ c. c.block)) (lookup-insert n name conf programs) in
      elim (Bool-cases (text_eq n name)) [ inl t ↦ e ∙ rw t refl | inr t ↦ e ∙ rw t refl ]

  stored :
      (name n status : Bytes) (block : B) (programs : Dict (NginxConfExt B))
      → Stores status
      → block_at name
          (update_nginx_program (record { name = n; status = status; block = block }) programs)
        ≡ (if text_eq n name then some block else block_at name programs)
  unfolding update_nginx_program update_program text_eq
  stored name n status block programs (inl e) = rw e (inserted name n _ programs)
  stored name n status block programs (inr (inl e)) = rw e (inserted name n _ programs)
  stored name n status block programs (inr (inr e)) = rw e (inserted name n _ programs)

  removed :
      (name n : Bytes) (block : B) (programs : Dict (NginxConfExt B))
      → block_at name (
          update_nginx_program
            (record { name = n; status = codes "delete"; block = block })
            programs)
        ≡ (if text_eq n name then none else block_at name programs)
  unfolding update_nginx_program update_program text_eq
  removed name n block programs =
      let e = ap (Option.map (λ c. c.block)) (lookup-remove n name programs) in
      elim (Bool-cases (text_eq n name)) [ inl t ↦ e ∙ rw t refl | inr t ↦ e ∙ rw t refl ]

module _ {B : Type 0} (parse : Bytes → Option B) (empty : B) (name : Bytes) where
  -- A file that is read stores its block where it can be parsed.
  pub changed-block :
      (status : Bytes) (read : Bytes → Option Bytes) (n : Bytes) (programs : Dict (NginxConfExt B))
      → Stores status
      → block_at name (tell (changed parse status read n) programs) ≡ (
          if text_eq n name
          then refreshed write (parse_file parse read name) (block_at name programs)
          else block_at name programs)
  unfolding changed tell
  changed-block status read n programs h = elim (Bool-cases (text_eq n name)) [
    | inr t ↦ elim (Option-cases (parse_file parse read n)) [
      | inl e ↦ rw (changed, e, t) refl
      | inr (block, e) ↦ rw (changed, e) (stored name n status block programs h ∙ rw t refl)
    ]
    | inl t ↦
        let same = (text_eq_iff n name).0 t in
        elim (Option-cases (parse_file parse read n)) [
          | inl e ↦ rw (changed, e, t, sym same, e) refl
          | inr (block, e) ↦
              rw (changed, e) (stored name n status block programs h ∙ rw (t, sym same, e) refl)
        ]
  ]

  told :
      (read : Bytes → Option Bytes) (n : Bytes) (op : FileOp) (programs : Dict (NginxConfExt B))
      → has_suffix name (codes ".conf") ≡ true
      → block_at name (tell (watch_event parse empty read n op) programs) ≡ (
          if text_eq n name
          then refreshed op (parse_file parse read name) (block_at name programs)
          else block_at name programs)
  unfolding watch_event file_event tell
  told read n op programs h = elim (Bool-cases (has_suffix n (codes ".conf"))) [
    | inl t ↦ rw (watch_event, t) (switched op)
    | inr t ↦ rw (watch_event, t, other_path name n h t) refl
  ]
    where
      switched :
          (op : FileOp)
          → block_at name (tell (file_event parse empty read n op) programs) ≡ (
              if text_eq n name
              then refreshed op (parse_file parse read name) (block_at name programs)
              else block_at name programs)
      switched create = changed-block (codes "create") read n programs (inl refl)
      switched write = changed-block (codes "update") read n programs (inr (inl refl))
      switched remove = removed name n empty programs
      switched other = if-same (text_eq n name) (block_at name programs)

  pub follow-from :
      (events : List ((Bytes → Option Bytes) × Bytes × FileOp)) (programs : Dict (NginxConfExt B))
      → has_suffix name (codes ".conf") ≡ true
      → block_at name (follow parse empty events programs)
        ≡ after parse name (block_at name programs) events
  unfolding follow
  follow-from [] programs h = refl
  follow-from ((read, n, op) ∷ events) programs h =
      follow-from events (tell (watch_event parse empty read n op) programs) h
      ∙ ap (λ o. after parse name o events) (told read n op programs h)
