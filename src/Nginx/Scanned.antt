-- ===== src/Nginx/Scanned.antt =====
-- Which configurations of nginx the engine holds after the scan and any events.
use juno_agent.Base.{
  Option, none, some, Bool, true, false, ◌||◌, ◌≡◌, refl, sym, ap, ◌∙◌, inl, inr, List, [], ◌∷◌,
  if◌then◌else◌, Bool-cases, Option-cases,
}
use juno_agent.Base.Text.{Bytes, codes, text_eq, has_suffix}
use juno_agent.Base.Dict.{Dict, lookup}
use juno_agent.Nginx.{
  NginxConfExt, Visit, unreadable, file, folder, ScanResult, crashes, scanned, walk, scan, FileOp,
  write, parse_file, scan_files, changed, tell, load, follow,
}
use juno_agent.Nginx.Tracking.{block_at, refreshed, after, other_path, changed-block, follow-from}

abbrev pub listed : Bytes → List Bytes → Bool
listed name [] = false
listed name (n ∷ names) = text_eq n name || listed name names

abbrev pub visited : Bytes → List Visit → Bool
visited name [] = false
visited name (unreadable ∷ visits) = visited name visits
visited name (file n ∷ visits) = text_eq n name || visited name visits
visited name (folder n ∷ visits) = visited name visits

module _ {B : Type 0} (parse : Bytes → Option B) (empty : B) (name : Bytes) where
  load-changed :
      (read : Bytes → Option Bytes) (n : Bytes) (files : List Bytes)
      (programs : Dict (NginxConfExt B))
      → load (scan_files parse read (n ∷ files)) programs
        ≡ load (scan_files parse read files) (tell (changed parse (codes "list") read n) programs)
  unfolding scan_files load changed tell
  load-changed read n files programs = elim (Option-cases (parse_file parse read n)) [
    | inl e ↦ rw (scan_files, changed, e) refl
    | inr (block, e) ↦ rw (scan_files, changed, e) refl
  ]

  -- Reading a file twice is reading it once.
  twice :
      (a b : Bool) (new old o : Option B)
      → o ≡ (if b then refreshed write new old else old)
      → (if a then refreshed write new o else o) ≡ (if b || a then refreshed write new old else old)
  twice true true none old o e = e
  twice true false none old o e = e
  twice false true none old o e = e
  twice false false none old o e = e
  twice true true (some block) old o e = refl
  twice true false (some block) old o e = refl
  twice false true (some block) old o e = e
  twice false false (some block) old o e = e

  load-block :
      (read : Bytes → Option Bytes) (files : List Bytes) (programs : Dict (NginxConfExt B))
      → block_at name (load (scan_files parse read files) programs) ≡ (
          if listed name files
          then refreshed write (parse_file parse read name) (block_at name programs)
          else block_at name programs)
  unfolding scan_files load
  load-block read [] programs = refl
  load-block read (n ∷ files) programs =
      ap (block_at name) (load-changed read n files programs)
      ∙ load-block read files (tell (changed parse (codes "list") read n) programs)
      ∙ twice (listed name files) (text_eq n name) (parse_file parse read name)
          (block_at name programs) _
          (changed-block parse empty name (codes "list") read n programs (inr (inr refl)))

  loaded-after :
      (read : Bytes → Option Bytes) (files : List Bytes)
      → (events : List ((Bytes → Option Bytes) × Bytes × FileOp))
      → has_suffix name (codes ".conf") ≡ true
      → block_at name (follow parse empty events (load (scan_files parse read files) []))
        ≡ after parse name (if listed name files then parse_file parse read name else none) events
  unfolding lookup
  loaded-after read files events h =
      follow-from parse empty name events (load (scan_files parse read files) []) h
      ∙ ap (λ o. after parse name o events)
          (load-block read files []
            ∙ ap (λ o. if listed name files then o else none)
                (from_none (parse_file parse read name)))
    where
      from_none : (new : Option B) → refreshed write new none ≡ new
      from_none none = refl
      from_none (some block) = refl

  walk-listed :
      (visits : List Visit) (files paths : List Bytes)
      → has_suffix name (codes ".conf") ≡ true
      → walk visits ≡ some (files, paths)
      → listed name files ≡ visited name visits
  unfolding walk
  walk-listed [] files paths h e =
      ap (λ w. elim w [ none ↦ false | some p ↦ listed name p.0 ]) (sym e)
  walk-listed (unreadable ∷ visits) files paths h e = absurd (cc e)
  walk-listed (folder path ∷ visits) files paths h e = elim (Option-cases (walk visits)) [
    | inl n ↦ absurd (cc (rw n at e))
    | inr ((fs, ps), w) ↦
        ap (λ w. elim w [ none ↦ false | some p ↦ listed name p.0 ]) (sym (rw w at e))
        ∙ walk-listed visits fs ps h w
  ]
  walk-listed (file path ∷ visits) files paths h e = elim (Option-cases (walk visits)) [
    | inl n ↦ absurd (cc (rw n at e))
    | inr ((fs, ps), w) ↦
        ap (λ w. elim w [ none ↦ false | some p ↦ listed name p.0 ]) (sym (rw w at e))
        ∙ elim (Bool-cases (has_suffix path (codes ".conf"))) [
          | inl t ↦ rw t (ap (λ b. text_eq path name || b) (walk-listed visits fs ps h w))
          | inr t ↦ rw (t, other_path name path h t) (walk-listed visits fs ps h w)
        ]
  ]

  -- For a path that ends in .conf, once the scan of an enabled scanner has returned, the engine holds
  -- after any changes of files the last block that was parsed of the file, at the scan, its creation
  -- or a write, and none behind its removal; a text that cannot be parsed and changes of other files
  -- make no difference.
  pub scan-after :
      (read : Bytes → Option Bytes) (visits : List Visit)
      → (confs : List (NginxConfExt B)) (paths : List Bytes)
      → (events : List ((Bytes → Option Bytes) × Bytes × FileOp))
      → has_suffix name (codes ".conf") ≡ true
      → scan parse true read visits ≡ scanned confs paths
      → block_at name (follow parse empty events (load confs []))
        ≡ after parse name (if visited name visits then parse_file parse read name else none) events
  unfolding scan
  scan-after read visits confs paths events h e = elim (Option-cases (walk visits)) [
    | inl n ↦ absurd (cc (rw (scan, n) at e))
    | inr ((files, ps), w) ↦
        ap (λ r. block_at name (follow parse empty events (load (confs_of r) [])))
          (sym (rw (scan, w) at e))
        ∙ loaded-after read files events h
        ∙ ap (λ b. after parse name (if b then parse_file parse read name else none) events)
            (walk-listed visits files ps h w)
  ]
    where
      confs_of : ScanResult B → List (NginxConfExt B)
      confs_of crashes = []
      confs_of (scanned cs ps) = cs
