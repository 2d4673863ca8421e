-- ===== src/Config/Efi/Mount/Search.antt =====
-- package/zebrafish-config/src/efi.rs: what the search for the kernel finds.
use zebrafish.Prelude.{
  ℕ, zero, suc, ◌+◌, ◌<◌, Bool, true, false, List, [], ◌∷◌, Option, none, some, Text, ◌≡◌, ◌⊎◌, ◌↔◌,
  inl, inr, refl, arith,
}
use zebrafish.Prelude.Results.{ok, err}
use zebrafish.Config.Efi.Mount.{
  Dir, Dirs, dir, no_dirs, one, push_all, entries_read, search_stack, count, count_all,
  kernel_result, kernel_dir, no_kernel,
}

-- The kernel lies in the directory of that path, below directories that can be read.
abbrev mutual
  pub Holds : Text → Dir → Type 0
  Holds p (dir q k r ds) = ((k ≡ true) × (q ≡ p)) ⊎ ((r ≡ true) × HoldsIn p ds)

  pub HoldsIn : Text → Dirs → Type 0
  HoldsIn p no_dirs = ⊥
  HoldsIn p (one d ds) = Holds p d ⊎ HoldsIn p ds

abbrev Holding : Text → List Dir → Type 0
Holding p [] = ⊥
Holding p (d ∷ stack) = Holds p d ⊎ Holding p stack

abbrev total : List Dir → ℕ
total [] = 0
total (d ∷ stack) = count d + total stack

total-push_all :
    (ds : Dirs) (stack : List Dir) → total (push_all ds stack) ≡ count_all ds + total stack
unfolding push_all count
total-push_all no_dirs stack = omega arith
total-push_all (one d ds) stack = omega (arith, total-push_all ds (d ∷ stack))

Holding-push_all :
    (p : Text) (ds : Dirs) (stack : List Dir)
    → Holding p (push_all ds stack) ↔ (HoldsIn p ds ⊎ Holding p stack)
unfolding push_all
Holding-push_all p no_dirs stack = (λ h. inr h, λ h. elim h [ inl x ↦ elim x [ ] | inr y ↦ y ])
Holding-push_all p (one d ds) stack =
    let ih = Holding-push_all p ds (d ∷ stack) in
    (
      λ h. elim (ih.0 h) [
        | inl x ↦ inl (inr x)
        | inr y ↦ elim y [ inl z ↦ inl (inl z) | inr w ↦ inr w ]
      ],
      λ h.
          ih.1 (elim h [
            | inl x ↦ elim x [ inl y ↦ inr (inl y) | inr z ↦ inl z ]
            | inr w ↦ inr (inr w)
          ]),
    )

-- What the search should answer for a stack.
abbrev Answers : Option Text → List Dir → Type 0
Answers none stack = (p : Text) → ¬ Holding p stack
Answers (some p) stack = Holding p stack

Holding-skip :
    (q : Text) (r : Bool) (ds : Dirs) (stack : List Dir) (p : Text)
    → Holding p (dir q false r ds ∷ stack)
    → Holding p (entries_read r ds stack)
Holding-skip q r ds stack p (inl (inl x)) = absurd (ground (arith, x.0))
Holding-skip q true ds stack p (inl (inr x)) = (Holding-push_all p ds stack).1 (inl x.1)
Holding-skip q true ds stack p (inr y) = (Holding-push_all p ds stack).1 (inr y)
Holding-skip q false ds stack p (inl (inr x)) = absurd (ground (arith, x.0))
Holding-skip q false ds stack p (inr y) = y

Answers-skip :
    (o : Option Text) (q : Text) (r : Bool) (ds : Dirs) (stack : List Dir)
    → Answers o (entries_read r ds stack)
    → Answers o (dir q false r ds ∷ stack)
Answers-skip none q r ds stack h = λ p x. h p (Holding-skip q r ds stack p x)
Answers-skip (some p) q true ds stack h = elim ((Holding-push_all p ds stack).0 h) [
  | inl x ↦ inl (inr (refl, x))
  | inr y ↦ inr y
]
Answers-skip (some p) q false ds stack h = inr h

total-entries_read :
    (r : Bool) (ds : Dirs) (stack : List Dir)
    → total (entries_read r ds stack) < suc (count_all ds) + total stack
total-entries_read true ds stack = omega (arith, total-push_all ds stack)
total-entries_read false ds stack = omega arith

search_stack-Answers :
    (f : ℕ) (stack : List Dir)
    → total stack < f
    → (o : Option Text) × (search_stack f stack ≡ some o) × Answers o stack
unfolding search_stack count
search_stack-Answers zero stack h = absurd (omega arith)
search_stack-Answers (suc f) [] h = (none, refl, λ p x. x)
search_stack-Answers (suc f) (dir q true r ds ∷ stack) h = (some q, refl, inl (inl (refl, refl)))
search_stack-Answers (suc f) (dir q false r ds ∷ stack) h =
    let (o, e, right) =
      search_stack-Answers f (entries_read r ds stack)
        (omega (arith, total-entries_read r ds stack)) in
    (o, e, Answers-skip o q r ds stack right)

kernel_result-Answers :
    (root : Dir) (o : Option Text)
    → Answers o (root ∷ [])
    → ((p : Text) × (kernel_result (some o) ≡ ok p) × Holds p root)
      ⊎ ((kernel_result (some o) ≡ err no_kernel) × ((p : Text) → ¬ Holds p root))
kernel_result-Answers root none h = inr (refl, λ p x. h p (inl x))
kernel_result-Answers root (some p) (inl x) = inl (p, refl, x)
kernel_result-Answers root (some p) (inr y) = elim y [ ]

-- The search ends on every tree. It returns a directory that holds the kernel, or it fails and
-- then no directory holds it that can be reached through directories which can be read.
pub kernel_dir-Holds :
    (root : Dir)
    → ((p : Text) × (kernel_dir root ≡ ok p) × Holds p root)
      ⊎ ((kernel_dir root ≡ err no_kernel) × ((p : Text) → ¬ Holds p root))
unfolding kernel_dir
kernel_dir-Holds root =
    let (o, e, right) = search_stack-Answers (suc (count root)) (root ∷ []) (omega arith) in
    rw e (kernel_result-Answers root o right)
