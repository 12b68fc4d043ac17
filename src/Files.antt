-- ===== src/Files.antt =====
-- The files of a directory, and the writing of a file: util/file.go. The answers of the file system are
-- parameters.
use mathlib.Core.Option
use juno_agent.Base.{
  ◌≡◌, ◌∙◌, refl, sym, ap, Option, none, some, Bool, true, false, ◌&&◌, ◌||◌, not, List, [], ◌∷◌,
  ◌++◌, inl, inr, if◌then◌else◌, Bool-cases, All, arith,
}
use juno_agent.Base.Text.{Bytes, codes, is_empty, text_eq, text_eq_iff}
use juno_agent.Base.Dict.{Dict, lookup, insert, lookup-insert}

pub record FileInfo : Type 0 where
  pub name : Bytes
  pub is_dir : Bool

-- The loop that looks for one name, and breaks.
unfoldable pub named : Bytes → List FileInfo → List FileInfo
named name [] = []
named name (info ∷ infos) =
    let rest = named name infos in if text_eq info.name name then info ∷ [] else rest

-- Whether the first entry of a name is a file.
abbrev pub is_first_file : Bytes → List FileInfo → Bool
is_first_file name [] = false
is_first_file name (info ∷ infos) =
    let rest = is_first_file name infos in if text_eq info.name name then not info.is_dir else rest

-- Whether a list has a file of a name.
abbrev pub has_file : Bytes → List FileInfo → Bool
has_file name [] = false
has_file name (info ∷ infos) = (not info.is_dir && text_eq info.name name) || has_file name infos

has_file-named :
    (app_name : Bytes) (infos : List FileInfo) (name : Bytes)
    → has_file name (named app_name infos) ≡ (text_eq app_name name && is_first_file app_name infos)
unfolding named
has_file-named app_name [] name = ground arith
has_file-named app_name (info ∷ infos) name = ground (
  arith,
  has_file-named app_name infos name,
  text_eq_iff info.name app_name,
  text_eq_iff info.name name,
  text_eq_iff app_name name,
)

module _ (read : Bytes → Option Bytes) (dir : Bytes) where
  -- What is read before an error is dropped by the callers.
  unfoldable pub read_files : List FileInfo → Dict Bytes → Option (Dict Bytes)
  read_files [] result = some result
  read_files (info ∷ infos) result =
      if info.is_dir then read_files infos result else elim (read (dir ++ codes "/" ++ info.name)) [
        | none ↦ none
        | some content ↦ read_files infos (insert info.name content result)
      ]

  -- ReadDirFiles, of what ReadDir gives; `none` is an error.
  unfoldable pub read_dir_files : Option (List FileInfo) → Bytes → Option (Dict Bytes)
  unfolding read_files named
  read_dir_files none app_name = none
  read_dir_files (some infos) app_name =
      read_files (if is_empty app_name then infos else named app_name infos) []

  -- A file that can be read.
  pub record IsReadable (info : FileInfo) : Type 0 where
    pub content :
        info.is_dir ≡ false → (c : Bytes) × (read (dir ++ codes "/" ++ info.name) ≡ some c)

  read_files-lookup :
      (infos : List FileInfo) (name : Bytes) (result : Dict Bytes)
      → All IsReadable infos
      → Option.map (lookup name) (read_files infos result)
        ≡ some (if has_file name infos then read (dir ++ codes "/" ++ name) else lookup name result)
  unfolding read_files
  read_files-lookup [] name result h = refl
  read_files-lookup (info ∷ infos) name result h = elim (Bool-cases info.is_dir) [
    | inl d ↦ rw (d, ◌&&◌, not) (read_files-lookup infos name result h.1)
    | inr d ↦
        let (c, e) = h.0.content d in
        let rest = read_files-lookup infos name (insert info.name c result) h.1 in
        rw (d, e)
          (rest
            ∙ ap some (elim (Bool-cases (text_eq info.name name)) [
              | inl t ↦
                  let same : read (dir ++ codes "/" ++ name) ≡ some c =
                    rw (sym ((text_eq_iff info.name name).0 t)) e in
                  ground (arith, t, same, lookup-insert info.name name c result)
              | inr t ↦ ground (arith, t, lookup-insert info.name name c result)
            ]))
  ]

  named-IsReadable :
      (app_name : Bytes) (infos : List FileInfo)
      → All IsReadable infos
      → All IsReadable (named app_name infos)
  unfolding named
  named-IsReadable app_name [] h = tt
  named-IsReadable app_name (info ∷ infos) h = elim (Bool-cases (text_eq info.name app_name)) [
    | inl t ↦ rw t (h.0, tt)
    | inr t ↦ rw t (named-IsReadable app_name infos h.1)
  ]

  -- The files that are wanted: all of them, or the first entry of the name of an application.
  abbrev pub is_wanted : Bytes → List FileInfo → Bytes → Bool
  is_wanted app_name infos name =
      if is_empty app_name
      then has_file name infos
      else text_eq app_name name && is_first_file app_name infos

  -- Where every file of a directory can be read, ReadDirFiles gives no error. Without the name of an
  -- application it has, under a name, the content of the file of this name, where the directory has
  -- one, and else nothing; with the name of an application only the content of the first entry of that
  -- name, if this is a file.
  pub read_dir_files-lookup :
      (infos : List FileInfo) (app_name name : Bytes)
      → All IsReadable infos
      → Option.map (lookup name) (read_dir_files (some infos) app_name)
        ≡ some (if is_wanted app_name infos name then read (dir ++ codes "/" ++ name) else none)
  unfolding read_dir_files lookup
  read_dir_files-lookup infos app_name name h = elim (Bool-cases (is_empty app_name)) [
    | inl t ↦ rw (read_dir_files, t) (read_files-lookup infos name [] h)
    | inr t ↦
        rw (read_dir_files, t, sym (has_file-named app_name infos name))
          (read_files-lookup (named app_name infos) name [] (named-IsReadable app_name infos h))
  ]

-- MkdirAll and WriteFile, which tell whether they succeed, by what Stat, the making of the directories
-- and the writing answer.
pub data Stat : Type 0 where
  exists not_exist other_error : Stat

unfoldable pub mkdir_all {ℓ} : {W : Type ℓ} → Stat → (W → Bool × W) → W → Bool × W
mkdir_all exists make w = (true, w)
mkdir_all not_exist make w = make w
mkdir_all other_error make w = (false, w)

unfoldable pub write_file {ℓ} :
    {W : Type ℓ} → (W → Stat) → (W → Bool × W) → (W → Bool × W) → W → Bool × W
unfolding mkdir_all
write_file stat make write w =
    let (made, w') = mkdir_all (stat w) make w in if made then write w' else (false, w')
