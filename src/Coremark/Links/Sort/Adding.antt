-- ===== src/Coremark/Links/Sort/Adding.antt =====
-- `core_list_mergesort`: the next element behind the merged list.
use mlonmcu_sw.Base.{
  ℕ, ◌≡◌, ◌≢◌, inl, inr, refl, arith, sym, subst, Bool-cases, false, List, [], ◌∷◌, ◌++◌, All, ◌==◌,
  if◌then◌else◌,
}
use mlonmcu_sw.Coremark.Links.{Store, put_next}
use mlonmcu_sw.Coremark.Links.Chained.{Chained, Chained-put_next, Distinct}
use mlonmcu_sw.Coremark.Links.Sort.Splits.{Apart, Linked, last_of, Merged}

Linked-put_next :
    (m : Store) (x v p : ℕ) (xs : List ℕ)
    → All (λ y. x ≢ y) xs
    → Linked m p xs
    → Linked (put_next x v m) p xs
Linked-put_next m x v p [] ne h = tt
Linked-put_next m x v p (y ∷ xs) ne (at, live, h) =
    let other : (y == x) ≡ false = ground (arith, ne.0) in
    (at, live, rw other (Linked-put_next m x v (m.next y) xs ne.1 h))

pub All-last : (P : ℕ → Type 0) (x : ℕ) (xs : List ℕ) → All P (x ∷ xs) → P (last_of (x ∷ xs))
All-last P x [] h = h.0
All-last P x (y ∷ xs) h = All-last P y xs h.1

pub last-ne-zero : (m : Store) (p x : ℕ) (xs : List ℕ) → Linked m p (x ∷ xs) → last_of (x ∷ xs) ≢ 0
last-ne-zero m p x [] h = h.1
last-ne-zero m p x (y ∷ xs) h = last-ne-zero m (m.next x) y xs h.2

last-append : (xs : List ℕ) (e : ℕ) → last_of (xs ++ e ∷ []) ≡ e
last-append [] e = refl
last-append (x ∷ []) e = refl
last-append (x ∷ y ∷ xs) e = last-append (y ∷ xs) e

-- The store after `tail->next = e`, where there is a tail.
abbrev pub stored : (tail e : ℕ) → Store → Store
stored tail e m = if tail == 0 then m else put_next tail e m

Linked-extend :
    (m : Store) (p e x : ℕ) (xs : List ℕ)
    → e ≢ 0
    → Distinct (x ∷ xs)
    → Linked m p (x ∷ xs)
    → Linked (put_next (last_of (x ∷ xs)) e m) p (x ∷ xs ++ e ∷ [])
Linked-extend m p e x [] live d h =
    let linked : (put_next x e m).next x ≡ e = ground arith in (h.0, h.1, (linked, live, tt))
Linked-extend m p e x (y ∷ xs) live d h =
    let other : (x == last_of (y ∷ xs)) ≡ false = ground (arith, All-last (λ z. x ≢ z) y xs d.0) in
    (h.0, h.1, rw other (Linked-extend m (m.next x) e y xs live d.1 h.2))

module _ (m : Store) (list tail e : ℕ) where
  pub Merged-add :
      (done : List ℕ)
      → e ≢ 0
      → Distinct done
      → Merged m list tail done
      → Merged (stored tail e m) (if tail == 0 then e else list) e (done ++ e ∷ [])
  Merged-add [] live d h = rw h.1 ((refl, live, tt), refl)
  Merged-add (x ∷ xs) live d h =
      let set : (last_of (x ∷ xs) == 0) ≡ false = ground (arith, last-ne-zero m list x xs h.0) in
      let store : stored tail e m ≡ put_next (last_of (x ∷ xs)) e m = rw (h.1, set) refl in
      let start : (if tail == 0 then e else list) ≡ list = rw (h.1, set) refl in
      (
        subst (λ (s : Store). Linked s (if tail == 0 then e else list) (x ∷ xs ++ e ∷ []))
            (sym store)
            (subst (λ (p : ℕ). Linked (put_next (last_of (x ∷ xs)) e m) p (x ∷ xs ++ e ∷ []))
              (sym start) (Linked-extend m list e x xs live d h.0)),
        sym (last-append (x ∷ xs) e),
      )

  pub kept_run :
      (done xs : List ℕ) (p : ℕ)
      → Merged m list tail done
      → Apart done xs
      → Linked m p xs
      → Linked (stored tail e m) p xs
  kept_run [] xs p h o k = rw h.1 k
  kept_run (x ∷ done) xs p h o k =
      let set : (last_of (x ∷ done) == 0) ≡ false =
        ground (arith, last-ne-zero m list x done h.0) in
      rw (h.1, set)
        (Linked-put_next m (last_of (x ∷ done)) e p xs
          (All-last (λ z. All (λ y. z ≢ y) xs) x done o) k)

  pub kept_rest :
      (done us : List ℕ) (p : ℕ)
      → Merged m list tail done
      → Apart done us
      → Chained m p us
      → Chained (stored tail e m) p us
  kept_rest [] us p h o k = rw h.1 k
  kept_rest (x ∷ done) us p h o k =
      let set : (last_of (x ∷ done) == 0) ≡ false =
        ground (arith, last-ne-zero m list x done h.0) in
      rw (h.1, set)
        (Chained-put_next m (last_of (x ∷ done)) e p us
          (All-last (λ z. All (λ y. z ≢ y) us) x done o) k)

  pub kept_info : (stored tail e m).info ≡ m.info
  kept_info = elim (Bool-cases (tail == 0)) [ inl z ↦ rw z refl | inr z ↦ rw z refl ]
