-- ===== src/Config/Files/Atomic.antt =====
-- package/zebrafish-config/src/store.rs: `write_document` and what can interrupt it.
use zebrafish.Prelude.{
  Bool, true, false, [], ◌∷◌, ◌++◌, Option, none, some, Text, text_eq_refl, text_eq_ne, ◌≡◌, ◌≢◌,
  ◌⊎◌, inl, inr, refl, ◌∙◌,
}
use zebrafish.Config.Files.{
  Disk, Read, content, missing, write, rename, stores, apply, Runs, finished, stopped, torn, called,
  create_parent, temporary, write_document,
}

-- The file at the path is the old one or the new one, and the new one after a run to the end.
abbrev pub IsAtomic : Disk → Text → Text → Disk → Bool → Type 0
IsAtomic disk path doc after true = after path ≡ content doc
IsAtomic disk path doc after false = (after path ≡ disk path) ⊎ (after path ≡ content doc)

stores-same : (disk : Disk) (path : Text) (r : Read) → stores disk path r path ≡ r
stores-same disk path r = rw (text_eq_refl path)

stores-other : (disk : Disk) (path q : Text) (r : Read) → path ≢ q → stores disk path r q ≡ disk q
stores-other disk path q r h = rw (text_eq_ne path q h)

module _ (disk : Disk) (tmp path doc : Text) (h : tmp ≢ path) where
  renamed : apply (apply disk (write tmp doc)) (rename tmp path) path ≡ content doc
  unfolding apply
  renamed =
      stores-other (stores (stores disk tmp (content doc)) path _) tmp path missing h
      ∙ stores-same (stores disk tmp (content doc)) path _
      ∙ stores-same disk tmp (content doc)

  written : apply disk (write tmp doc) path ≡ disk path
  unfolding apply
  written = stores-other disk tmp path (content doc) h

  replace-IsAtomic :
      {after : Disk} {whole : Bool}
      → Runs disk (write tmp doc ∷ rename tmp path ∷ []) after whole
      → IsAtomic disk path doc after whole
  replace-IsAtomic stopped = inl refl
  replace-IsAtomic (torn part) = inl (stores-other disk tmp path (content part) h)
  replace-IsAtomic (called stopped) = inl written
  replace-IsAtomic (called (called finished)) = renamed
  replace-IsAtomic (called (called stopped)) = inr renamed

  parent-IsAtomic :
      (o : Option Text) {after : Disk} {whole : Bool}
      → Runs disk (create_parent o ++ (write tmp doc ∷ rename tmp path ∷ [])) after whole
      → IsAtomic disk path doc after whole
  parent-IsAtomic none r = replace-IsAtomic r
  parent-IsAtomic (some []) r = replace-IsAtomic r
  parent-IsAtomic (some (c ∷ cs)) stopped = inl refl
  parent-IsAtomic (some (c ∷ cs)) (called r) = unfold apply in replace-IsAtomic r

module _ (parent : Text → Option Text) (with_extension : Text → Text → Text) where
  -- If the temporary file is another one, then wherever `write_document` fails or its process is
  -- killed while the system goes on, the file holds either what it held before or the whole new
  -- document; and it holds the document once all calls are made.
  pub write_document-Runs :
      (disk : Disk) (path doc : Text) {after : Disk} {whole : Bool}
      → temporary parent with_extension path ≢ path
      → Runs disk (write_document parent with_extension path doc) after whole
      → IsAtomic disk path doc after whole
  unfolding write_document
  write_document-Runs disk path doc h r =
      parent-IsAtomic disk (temporary parent with_extension path) path doc h (parent path) r
