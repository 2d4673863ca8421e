-- ===== src/Dns/Lru/Bounded.antt =====
-- A least recently used cache on a list: the interface of the lru crate can be met.
use zebrafish.Prelude.{
  ℕ, ◌-◌, false, List, [], ◌∷◌, Option, none, some, Bytes, ◌≡◌, ◌≢◌, ◌⊎◌, inl, inr, refl, take,
  text_eq, text_eq_refl, text_eq_ne, text_eq_iff, if◌then◌else◌, Bool-cases, zero, suc, arith, sym,
  ◌∙◌, ap,
}
use zebrafish.Dns.Lru.{Lru, Laws}

-- One less than the capacity, and the entries, the most recently used first.
pub record Bounded (V : Type 0) : Type 0 where
  pub others : ℕ
  pub entries : List (Bytes × V)

module _ {V : Type 0} where
  unfoldable pub find : List (Bytes × V) → Bytes → Option V
  find [] k = none
  find ((j, v) ∷ xs) k = if text_eq j k then some v else find xs k

  unfoldable pub erase : List (Bytes × V) → Bytes → List (Bytes × V)
  erase [] k = []
  erase ((j, v) ∷ xs) k = if text_eq j k then erase xs k else (j, v) ∷ erase xs k

  unfoldable pub put_front : Bounded V → Bytes → V → Bounded V
  put_front c k v = record {
    others = c.others;
    entries = (k, v) ∷ take c.others (erase c.entries k);
  }

  abbrev pub promoted : Bounded V → Bytes → Option V → Bounded V
  promoted c k none = c
  promoted c k (some v) = record { others = c.others; entries = (k, v) ∷ erase c.entries k }

  unfoldable pub move_front : Bounded V → Bytes → Bounded V
  move_front c k = promoted c k (find c.entries k)

  find-erase : (xs : List (Bytes × V)) (k : Bytes) → find (erase xs k) k ≡ none
  unfolding find erase
  find-erase [] k = refl
  find-erase ((j, v) ∷ xs) k = elim (Bool-cases (text_eq j k)) [
    | inl same ↦ rw same (find-erase xs k)
    | inr other ↦ rw other (rw other (find-erase xs k))
  ]

  find-erase_ne : (xs : List (Bytes × V)) (k j : Bytes) → k ≢ j → find (erase xs k) j ≡ find xs j
  unfolding find erase
  find-erase_ne [] k j h = refl
  find-erase_ne ((i, v) ∷ xs) k j h = elim (Bool-cases (text_eq i k)) [
    | inl same ↦
        let other : text_eq i j ≡ false =
          text_eq_ne i j (λ e. h (rw ((text_eq_iff i k).0 same) at e)) in
        rw (same, other) (find-erase_ne xs k j h)
    | inr other ↦ rw (other, find-erase_ne xs k j h)
  ]

  find-take :
      (n : ℕ) (xs : List (Bytes × V)) (k : Bytes)
      → (find (take n xs) k ≡ find xs k) ⊎ (find (take n xs) k ≡ none)
  unfolding find
  find-take zero xs k = inr refl
  find-take (suc n) [] k = inl refl
  find-take (suc n) ((j, v) ∷ xs) k = elim (Bool-cases (text_eq j k)) [
    | inl same ↦ rw same (inl refl)
    | inr other ↦ rw other (find-take n xs k)
  ]

  abbrev pub bounded : Lru V
  bounded = record {
    LruCache = Bounded V;
    new = λ n. record { others = n - 1; entries = [] };
    peek = λ c k. find c.entries k;
    promote = move_front;
    put = put_front;
    pop = λ c k. record { others = c.others; entries = erase c.entries k };
  }

  find-promoted :
      (c : Bounded V) (k j : Bytes) (o : Option V)
      → find c.entries k ≡ o
      → find (promoted c k o).entries j ≡ find c.entries j
  find-promoted c k j none e = refl
  find-promoted c k j (some v) e = elim (Bool-cases (text_eq k j)) [
    | inl same ↦ unfold find in rw same (sym e ∙ ap (find c.entries) ((text_eq_iff k j).0 same))
    | inr other ↦
        unfold find in
        rw other (find-erase_ne c.entries k j (λ h. absurd (ground (arith, text_eq_iff k j))))
  ]

  find-put_front_ne :
      (c : Bounded V) (k j : Bytes) (v : V)
      → k ≢ j
      → (find (put_front c k v).entries j ≡ find c.entries j)
        ⊎ (find (put_front c k v).entries j ≡ none)
  unfolding put_front find
  find-put_front_ne c k j v h =
      rw (text_eq_ne k j h)
        (rw (sym (find-erase_ne c.entries k j h)) (find-take c.others (erase c.entries k) j))

  pub bounded-Laws : Laws bounded
  unfolding put_front find
  bounded-Laws = record {
    peek-new = λ n k. refl;
    peek-promote = λ c k j. unfold move_front in find-promoted c k j (find c.entries k) refl;
    peek-put = λ c k v. rw (text_eq_refl k);
    peek-put-ne = find-put_front_ne;
    peek-pop = λ c k. find-erase c.entries k;
    peek-pop-ne = λ c k j h. find-erase_ne c.entries k j h;
  }
