-- ===== src/Coremark/Links/Bench/Rounds.antt =====
-- `core_bench_list`: the rounds of the search keep the list, in another order.
use mathlib.Core.List.Perm
use mathlib.Core.List.{Perm, append-nil}
use mlonmcu_sw.Base.{
  ℕ, zero, suc, ◌≡◌, ◌≤◌, ◌<◌, ◌+◌, ◌%◌, ◌^◌, refl, ap, sym, subst, ◌∙◌, arith, List, [], ◌∷◌, ◌++◌,
  length, Bool-cases, inl, inr, false, ◌==◌, ◌||◌, if◌then◌else◌,
}
use mlonmcu_sw.Base.Partial.{Returns, returns, bind, mono}
use mlonmcu_sw.Coremark.Links.{Store, ListData, core_list_reverse}
use mlonmcu_sw.Coremark.Links.Chained.{Chained, Distinct}
use mlonmcu_sw.Coremark.Links.Find.{Found, nowhere, found_at, core_list_find-Found}
use mlonmcu_sw.Coremark.Links.Reverse.{reverse_onto, core_list_reverse-Chained}
use mlonmcu_sw.Coremark.Links.Bench.{Search, cache_next, find_round, search_loop}
use mlonmcu_sw.Coremark.Links.Bench.Moves.{Distinct-cached, Chained-cached, cached-Perm}
use mlonmcu_sw.Coremark.Links.Bench.Turns.{
  reverse_onto-Perm, reversed-Distinct, reversed_around, reverse_loop-Keeps, Keeps, Returns-Keeps,
  Perm-length,
}

-- A list of the heads `xs`, in some order, with the data of another store.
pub record Reordered (m : Store) (xs : List ℕ) (list : ℕ) (m' : Store) : Type 0 where
  pub order : List ℕ
  pub perm : Perm order xs
  pub distinct : Distinct order
  pub chain : Chained m' list order
  pub info : m'.info ≡ m.info
  pub data16 : m'.data16 ≡ m.data16
  pub idx : m'.idx ≡ m.idx

reversed :
    (fuel : ℕ) (m m' : Store) (xs : List ℕ) (list : ℕ) (r : Reordered m xs list m')
    → length xs < fuel
    → Returns
        (λ out.
          Chained out.1 out.0 (reverse_onto r.order [])
          × (out.1.info ≡ m.info)
          × (out.1.data16 ≡ m.data16)
          × (out.1.idx ≡ m.idx))
        (core_list_reverse fuel m' list)
reversed fuel m m' xs list r f =
    let short : length r.order < fuel = rw (Perm-length r.order xs r.perm) f in
    let keeps : Keeps m'.info m'.data16 m'.idx (core_list_reverse fuel m' list) =
      unfold core_list_reverse in reverse_loop-Keeps fuel m' 0 list in
    mono
      (Returns-Keeps (core_list_reverse-Chained fuel m' list r.order r.chain r.distinct short)
        keeps)
      λ out h. (h.0, h.1 ∙ r.info, h.2 ∙ r.data16, h.3 ∙ r.idx)

-- The list behind its head, where `y` is taken out from behind `x`.
abbrev rest_of : (front : List ℕ) (x : ℕ) (back : List ℕ) → List ℕ
rest_of [] x back = back
rest_of (z ∷ front) x back = front ++ x ∷ back

shape_of :
    (m : Store) (list x y : ℕ) (front back : List ℕ)
    → Chained m list (front ++ x ∷ y ∷ back)
    → front ++ x ∷ back ≡ list ∷ rest_of front x back
shape_of m list x y [] back ch = ap (λ z. z ∷ back) (sym ch.0)
shape_of m list x y (z ∷ front) back ch = ap (λ w. w ∷ front ++ x ∷ back) (sym ch.0)

pub Chained-after :
    (m : Store) (p x : ℕ) (front back : List ℕ)
    → Chained m p (front ++ x ∷ back)
    → Chained m (m.next x) back
Chained-after m p x [] back ch = ch.2
Chained-after m p x (z ∷ front) back ch = Chained-after m (m.next z) x front back ch.2

-- Moving the item behind the found one, if there is one.
cached-Reordered :
    (m m' : Store) (list x : ℕ) (xs front back : List ℕ)
    → Chained m' list (front ++ x ∷ back)
    → Distinct (front ++ x ∷ back)
    → Perm (front ++ x ∷ back) xs
    → m'.info ≡ m.info
    → m'.data16 ≡ m.data16
    → m'.idx ≡ m.idx
    → Reordered m xs list (if m'.next x == 0 then m' else cache_next x list m')
cached-Reordered m m' list x xs front [] ch d p ei ew ed =
    rw (Chained-after m' list x front [] ch) (record {
      order = front ++ x ∷ [];
      perm = p;
      distinct = d;
      chain = ch;
      info = ei;
      data16 = ew;
      idx = ed;
    })
cached-Reordered m m' list x xs front (y ∷ back) ch d p ei ew ed =
    let (at, live, _) = Chained-after m' list x front (y ∷ back) ch in
    let some_next : (m'.next x == 0) ≡ false = rw at (ground (arith, live)) in
    let shape = shape_of m' list x y front back ch in
    let rest = rest_of front x back in
    rw some_next (record {
      order = list ∷ y ∷ rest;
      perm = Perm.trans (cached-Perm m' list x y rest front back shape ch d) p;
      distinct = Distinct-cached m' list x y rest front back shape ch d;
      chain = Chained-cached m' list x y rest front back shape ch d live;
      info = ei;
      data16 = ew;
      idx = ed;
    })

two_heads :
    (m : Store) (list : ℕ) (xs : List ℕ)
    → Chained m list xs
    → 2 ≤ length xs
    → (list == 0 || m.next list == 0) ≡ false
two_heads m list [] ch n = absurd (omega (arith, n))
two_heads m list (x ∷ []) ch n = absurd (omega (arith, n))
two_heads m list (x ∷ y ∷ xs) (at, live, (at', live', ch)) n =
    rw (at, at') (ground (arith, live, live'))

pub place_of :
    (m : Store) (info : ListData) (order : List ℕ) (p : ℕ)
    → Found m info order p
    → (p == 0) ≡ false
    → (front : List ℕ) × (back : List ℕ) × (order ≡ front ++ p ∷ back)
place_of m info order p (nowhere h) live = absurd (ground arith)
place_of m info order p (found_at front x back before here) live = (front, back, refl)

reversed-Perm : (xs ys : List ℕ) → Perm xs ys → Perm (reverse_onto xs []) ys
reversed-Perm xs ys p =
    Perm.trans (subst (Perm (reverse_onto xs [])) (append-nil xs) (reverse_onto-Perm xs [])) p

module _ (m : Store) (xs : List ℕ) (fuel : ℕ) (two : 2 ≤ length xs) (short : length xs < fuel) where
  find_round-Reordered :
      (i : ℕ) (s : Search)
      → Reordered m xs s.list s.store
      → Returns (λ s'. Reordered m xs s'.list s'.store) (find_round fuel i s)
  unfolding find_round
  find_round-Reordered i s r =
      let info : ListData = record s.info { data16 = i % 2 ^ 8 } in
      let few : length r.order < fuel = rw (Perm-length r.order xs r.perm) short in
      bind (core_list_find-Found fuel s.store s.list info r.order r.chain few) λ p f.
        bind (reversed fuel m s.store xs s.list r short) λ out h.
          let turned = reverse_onto r.order [] in
          let perm = reversed-Perm r.order xs r.perm in
          let distinct = reversed-Distinct r.order r.distinct in
          elim (Bool-cases (p == 0)) [
            | inl z ↦
                rw (z, two_heads out.1 out.0 turned h.0 (rw (Perm-length turned xs perm) two))
                  (returns (record {
                    order = turned;
                    perm = perm;
                    distinct = distinct;
                    chain = h.0;
                    info = h.1;
                    data16 = h.2;
                    idx = h.3;
                  }))
            | inr z ↦
                let (front, back, e) = place_of s.store info r.order p f z in
                let at = ap (λ l. reverse_onto l []) e ∙ reversed_around front p back in
                rw z (
                  returns (
                    cached-Reordered m out.1 out.0 p xs (reverse_onto back [])
                      (reverse_onto front []) (subst (Chained out.1 out.0) at h.0)
                      (subst Distinct at distinct) (subst (λ l. Perm l xs) at perm) h.1 h.2 h.3))
          ]

  pub search_loop-Reordered :
      (n i : ℕ) (s : Search)
      → Reordered m xs s.list s.store
      → Returns (λ s'. Reordered m xs s'.list s'.store) (search_loop fuel n i s)
  unfolding search_loop
  search_loop-Reordered zero i s r = returns r
  search_loop-Reordered (suc n) i s r =
      bind (find_round-Reordered i s r) λ s' r'. search_loop-Reordered n (i + 1) s' r'
