-- ===== src/RegProxy/Names.antt =====
-- Under which name an application that registers is kept.
use juno_agent.Base.{ℕ, ◌≡◌, refl, ap, ◌∙◌, some, Bool, false, [], ◌∷◌, ◌++◌, Bool-cases, inl, inr}
use juno_agent.Base.Text.{Bytes, has_prefix, is_empty, trim_left}
use juno_agent.RegProxy.{
  Url, Readers, node, reg_prefix, providers, in_reg, reg_node, extract_parts, extract_reg_info_v2,
  extract,
}

trim_left-append :
    (p : ℕ → Bool) (x y : Bytes)
    → is_empty (trim_left p x) ≡ false
    → trim_left p (x ++ y) ≡ trim_left p x ++ y
unfolding trim_left
trim_left-append p [] y h = absurd (cc h)
trim_left-append p (c ∷ x) y h = elim (Bool-cases (p c)) [
  | inl e ↦ rw e (trim_left-append p x y (rw e at h))
  | inr e ↦ rw e refl
]

module _ (R : Readers) where
  -- An application that registers under /reg/, its name, /providers/ and an address is kept under its
  -- name without the bytes '/', 'r', 'e' and 'g' that it begins with. Here some byte of the name is
  -- left, the reader of two parts splits that key at /providers/, the address is a URL and the value
  -- is JSON.
  pub extract-reg_node :
      (app addr val : Bytes) (url : Url) (info : R.RegInfo)
      → is_empty (trim_left in_reg app) ≡ false
      → R.head2 providers (trim_left in_reg app ++ (providers ++ addr))
        ≡ (trim_left in_reg app, addr)
      → R.parse_url addr ≡ some url
      → R.unmarshal val ≡ some info
      → extract R (reg_prefix ++ (app ++ (providers ++ addr))) val
        ≡ node (reg_node R (trim_left in_reg app) url info)
  unfolding extract has_prefix extract_reg_info_v2
  extract-reg_node app addr val url info h split u v =
      let e : trim_left in_reg (reg_prefix ++ (app ++ (providers ++ addr)))
          ≡ trim_left in_reg app ++ (providers ++ addr) =
        trim_left-append in_reg app (providers ++ addr) h in
      ap (λ k. extract_parts R (R.head2 providers k) val) e
      ∙ ap (λ p. extract_parts R p val) split
      ∙ rw (extract_parts, u, v) refl
