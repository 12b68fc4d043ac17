-- ===== src/RegProxy/Prometheus/Kept.antt =====
-- What becomes of a file of targets when its key is deleted.
use juno_agent.Base.{
  ℕ, ◌≡◌, ◌≢◌, refl, sym, ap, ◌∙◌, none, some, Bool, true, false, inl, inr, List, [], ◌∷◌, ◌++◌,
  ltb, if◌then◌else◌, length, length-append, append_assoc, Bool-cases, Option-cases, All, get_or,
  arith,
}
use juno_agent.Base.Text.{Bytes, codes, text_eq, text_eq_iff, text_eq_refl}
use juno_agent.Base.Dict.{Dict, lookup, lookup-insert, lookup-remove}
use juno_agent.RegProxy.Prometheus.{
  Disk, key_parts, filename_of, content_of, Change, put, delete, file_of, write_target,
  remove_target, change_target, watch_targets,
}

-- The last five bytes, of a text that has as many.
last_five : Bytes → Bytes
last_five [] = []
last_five (c ∷ s) = let rest = last_five s in if ltb (length s) 5 then c ∷ s else rest

last_five-append : (s t : Bytes) → length t ≡ 5 → last_five (s ++ t) ≡ t
unfolding last_five
last_five-append [] [] h = refl
last_five-append [] (c ∷ t) h = ground arith
last_five-append (c ∷ s) t h = ground (arith, length-append s t, last_five-append s t h)

-- The event of a deletion carries no value.
abbrev pub FromEtcd : Change → Type 0
FromEtcd (put key value) = Unit
FromEtcd (delete key value) = value ≡ []

-- Whether there is a file.
abbrev pub is_file : Bytes → Dict Bytes → Bool
is_file name files = elim (lookup name files) [ none ↦ false | some text ↦ true ]

module _ (D : Disk) where
  file_of-end :
      (parts : List Bytes) (v : Bytes) (c : ℕ)
      → last_five (file_of D parts (v ++ c ∷ [])) ≡ c ∷ codes ".yml"
  unfolding file_of filename_of
  file_of-end parts v c =
      let head = D.path ++ codes "/" ++ get_or parts 3 [] ++ codes "_" ++ v in
      let e : file_of D parts (v ++ c ∷ []) ≡ head ++ c ∷ codes ".yml" = simp append_assoc in
      ap last_five e ∙ last_five-append head (c ∷ codes ".yml") refl

  file_of-bare : (parts : List Bytes) → last_five (file_of D parts []) ≡ codes "_.yml"
  unfolding file_of filename_of
  file_of-bare parts =
      let head = D.path ++ codes "/" ++ get_or parts 3 [] in
      let e : file_of D parts [] ≡ head ++ codes "_.yml" = simp append_assoc in
      ap last_five e ∙ last_five-append head (codes "_.yml") refl

  write_target-stays :
      (name key value : Bytes) (files : Dict Bytes)
      → is_file name files ≡ true
      → is_file name (write_target D key value files) ≡ true
  unfolding write_target
  write_target-stays name key value files h = elim (Option-cases (key_parts key)) [
    | inl e ↦ rw (is_file, write_target, e) h
    | inr (parts, e) ↦
        let file = file_of D parts value in
        let content = content_of parts value in
        rw (is_file, write_target, e)
          (elim (Bool-cases (D.writes file)) [
            | inl t ↦ rw t (elim (Bool-cases (text_eq file name)) [
              | inl q ↦ rw (if◌then◌else◌, lookup-insert file name content files, q) refl
              | inr q ↦ rw (if◌then◌else◌, lookup-insert file name content files, q) h
            ])
            | inr t ↦ rw t h
          ])
  ]

  -- A file whose name ends in another byte than `_` before .yml stays at a deletion.
  remove_target-stays :
      (name key : Bytes) (files : Dict Bytes)
      → last_five name ≢ codes "_.yml"
      → is_file name files ≡ true
      → is_file name (remove_target D key [] files) ≡ true
  unfolding remove_target
  remove_target-stays name key files n h = elim (Option-cases (key_parts key)) [
    | inl e ↦ rw (is_file, remove_target, e) h
    | inr (parts, e) ↦
        let file = file_of D parts [] in
        rw (is_file, remove_target, e)
          (elim (Bool-cases (D.removes file)) [
            | inl t ↦ rw t (elim (Bool-cases (text_eq file name)) [
              | inl q ↦
                  absurd (n (ap last_five (sym ((text_eq_iff file name).0 q)) ∙ file_of-bare parts))
              | inr q ↦ rw (if◌then◌else◌, lookup-remove file name files, q) h
            ])
            | inr t ↦ rw t h
          ])
  ]

  -- Nothing that etcd sends removes such a file.
  watch_targets-stays :
      (changes : List Change) (name : Bytes) (files : Dict Bytes)
      → last_five name ≢ codes "_.yml"
      → All FromEtcd changes
      → is_file name files ≡ true
      → is_file name (watch_targets D changes files) ≡ true
  unfolding watch_targets change_target
  watch_targets-stays [] name files n a h = h
  watch_targets-stays (put key value ∷ changes) name files n a h =
      watch_targets-stays changes name (write_target D key value files) n a.1
        (write_target-stays name key value files h)
  watch_targets-stays (delete key value ∷ changes) name files n a h =
      watch_targets-stays changes name (remove_target D key value files) n a.1
        (rw a.0 (remove_target-stays name key files n h))

  -- The file of a target that is put in etcd stays under every later event, that of its deletion
  -- included, where the key has 5 or 6 parts, the file can be written, the value is not empty and does
  -- not end in `_`, and the deletions carry no value, as in etcd.
  pub watch_targets-is_file :
      (key v : Bytes) (c : ℕ) (parts : List Bytes) (changes : List Change) (files : Dict Bytes)
      → key_parts key ≡ some parts
      → D.writes (file_of D parts (v ++ c ∷ [])) ≡ true
      → c ≢ b'_'
      → All FromEtcd changes
      → is_file
          (file_of D parts (v ++ c ∷ []))
          (watch_targets D (put key (v ++ c ∷ []) ∷ changes) files)
        ≡ true
  unfolding watch_targets change_target
  watch_targets-is_file key v c parts changes files p w n a =
      let value = v ++ c ∷ [] in
      let file = file_of D parts value in
      let end = file_of-end parts v c in
      let written : is_file file (write_target D key value files) ≡ true =
        rw (write_target, p)
          (rw (w, is_file, if◌then◌else◌, lookup-insert file file, text_eq_refl file) refl) in
      watch_targets-stays changes file (write_target D key value files)
        (λ e. n (ap (λ s. get_or s 0 0) (sym end ∙ e))) a written
