-- ===== src/Coremark/Links/Bench/Back.antt =====
-- `core_bench_list` without the sort by the data: the list is in the order of its indices in the end.
use mathlib.Core.List.Perm
use mathlib.Core.List.{Perm}
use mlonmcu_sw.Base.{
  ℕ, zero, suc, ◌≡◌, ◌≤◌, ◌<◌, ◌+◌, ◌/◌, ◌%◌, ◌^◌, ◌⊎◌, refl, ap, sym, subst, ◌∙◌, arith, some,
  List, [], ◌∷◌, ◌++◌, length, length-append, Bool-cases, inl, inr, false, ◌==◌, ◌||◌, ltb,
  if◌then◌else◌,
}
use mlonmcu_sw.Base.Partial.{Returns, returns, bind}
use mlonmcu_sw.Coremark.Calc.{Results}
use mlonmcu_sw.Coremark.Links.{Store, ListData, core_list_remove}
use mlonmcu_sw.Coremark.Links.Chained.{Chained, Distinct}
use mlonmcu_sw.Coremark.Links.Find.{Found, core_list_find-Found}
use mlonmcu_sw.Coremark.Links.Insert.{Chained-same_next}
use mlonmcu_sw.Coremark.Links.Remove.{core_list_remove-Removed}
use mlonmcu_sw.Coremark.Links.Undo.{SameStore, core_list_undo_remove-SameStore}
use mlonmcu_sw.Coremark.Links.Sort.Runs.{Sorted}
use mlonmcu_sw.Coremark.Links.Sort.ByIdx.{Rebuilt, signed, core_list_mergesort-by_idx}
use mlonmcu_sw.Coremark.Links.Init.{items_of, put_items, sort_by_idx}
use mlonmcu_sw.Coremark.Links.Bench.{crc_loop, sort_by_data, core_bench_list}
use mlonmcu_sw.Coremark.Links.Bench.Turns.{Perm-length}
use mlonmcu_sw.Coremark.Links.Bench.Rounds.{Reordered, place_of, search_loop-Reordered}

-- A list of the heads `xs` in the signed order of their indices, with the data pointers and the indices of
-- the store `m`, and its data as they were or rebuilt.
pub record InOrder (m : Store) (xs : List ℕ) (list : ℕ) (m' : Store) : Type 0 where
  pub order : List ℕ
  pub perm : Perm order xs
  pub in_order : Sorted (λ x. signed (m'.idx (m'.info x))) order
  pub chain : Chained m' list order
  pub info : (x : ℕ) → m'.info x ≡ m.info x
  pub data16 : (x : ℕ) → Rebuilt (m.data16 x) (m'.data16 x)
  pub restored :
      (x : ℕ) → m.data16 x / 2 ^ 8 % 2 ^ 8 ≡ m.data16 x % 2 ^ 8 → m'.data16 x ≡ m.data16 x
  pub idx : (x : ℕ) → m'.idx x ≡ m.idx x

crc_loop-Returns :
    (fuel : ℕ) (m : Store) (list p r : ℕ) (ys : List ℕ)
    → Chained m p ys
    → length ys < fuel
    → Returns (λ r'. Unit {0}) (crc_loop fuel m list p r)
unfolding crc_loop
crc_loop-Returns zero m list p r ys ch f = absurd (omega arith)
crc_loop-Returns (suc fuel) m list p r [] ch f = rw ch (returns tt)
crc_loop-Returns (suc fuel) m list p r (y ∷ ys) (at, live, ch) f =
    let go : (y == 0) ≡ false = ground (arith, live) in
    rw (at, go) (crc_loop-Returns fuel m list (m.next y) _ ys ch (omega (arith, f)))

Chained-at :
    (m : Store) (p x : ℕ) (front back : List ℕ)
    → Chained m p (front ++ x ∷ back)
    → Chained m x (x ∷ back)
Chained-at m p x [] back ch = (refl, ch.1, ch.2)
Chained-at m p x (z ∷ front) back ch = Chained-at m (m.next z) x front back ch.2

-- The checksum from what a search found, or else from the second head.
first_crc :
    (fuel : ℕ) (m : Store) (list p r x : ℕ) (xs : List ℕ) (info : ListData)
    → Chained m list (x ∷ xs)
    → length (x ∷ xs) < fuel
    → Found m info (x ∷ xs) p
    → Returns (λ r'. Unit {0}) (crc_loop fuel m list (if p == 0 then m.next list else p) r)
first_crc fuel m list p r x xs info ch f found = elim (Bool-cases (p == 0)) [
  | inl z ↦ rw (z, ch.0) (crc_loop-Returns fuel m x (m.next x) r xs ch.2 (omega (arith, f)))
  | inr z ↦
      let (front, back, e) = place_of m info (x ∷ xs) p found z in
      let size : length (x ∷ xs) ≡ length front + length (p ∷ back) =
        ap length e ∙ length-append front (p ∷ back) in
      rw z (
        crc_loop-Returns fuel m list p r (p ∷ back)
          (Chained-at m list p front back (subst (Chained m list) e ch)) (omega (arith, size, f)))
]

Rebuilt-restored : (old new : ℕ) → Rebuilt old new → old / 2 ^ 8 % 2 ^ 8 ≡ old % 2 ^ 8 → new ≡ old
Rebuilt-restored old new (inl e) same = e
Rebuilt-restored old new (inr e) same = omega (arith, e, same)

sort_by_idx-InOrder :
    (fuel list : ℕ) (m m' : Store) (x : ℕ) (xs : List ℕ)
    → SameStore m m'
    → Chained m list (x ∷ xs)
    → Distinct (x ∷ xs)
    → length (x ∷ xs) < fuel
    → length (x ∷ xs) < 2 ^ 30
    → ((a : ℕ) → m.idx a < 2 ^ 16)
    → Returns (λ out. InOrder m (x ∷ xs) out.0 out.1) (sort_by_idx fuel list m')
unfolding sort_by_idx
sort_by_idx-InOrder fuel list m m' x xs same ch d f small short =
    bind
      (core_list_mergesort-by_idx fuel list m' (items_of m') x xs
        (Chained-same_next m m' list (x ∷ xs) (λ z. (same z).0) ch) d f small
        (λ a. subst (λ (i : ℕ). i < 2 ^ 16) (sym (same a).3) (short a)))
      λ out h. returns (record {
        order = h.sorted;
        perm = h.perm;
        in_order =
            subst (λ (i : ℕ → ℕ). Sorted (λ x. signed (out.2.idx (i x))) h.sorted) (sym h.info_kept)
              (subst (λ (i : ℕ → ℕ). Sorted (λ x. signed (i (m'.info x))) h.sorted) (sym h.inv.idx)
                h.in_order);
        chain = Chained-same_next out.1 (put_items out.2 out.1) out.0 h.sorted (λ z. refl) h.chain;
        info = λ z. ap (λ (i : ℕ → ℕ). i z) h.info_kept ∙ (same z).1;
        data16 = λ z. subst (λ (o : ℕ). Rebuilt o (out.2.data16 z)) (same z).2 (h.inv.data16 z);
        restored = λ z e.
            Rebuilt-restored (m.data16 z) (out.2.data16 z)
              (subst (λ (o : ℕ). Rebuilt o (out.2.data16 z)) (same z).2 (h.inv.data16 z)) e;
        idx = λ z. ap (λ (i : ℕ → ℕ). i z) h.inv.idx ∙ (same z).3;
      })

-- The checksum of a list that is in order.
last_crc :
    (fuel : ℕ) (m m' : Store) (list r x : ℕ) (xs : List ℕ)
    → InOrder m (x ∷ xs) list m'
    → length (x ∷ xs) < fuel
    → Returns (λ r'. Unit {0}) (crc_loop fuel m' list (m'.next list) r)
last_crc fuel m m' list r x xs h f = at h.order h.chain (Perm-length h.order (x ∷ xs) h.perm)
  where
    at :
        (order : List ℕ)
        → Chained m' list order
        → length order ≡ length (x ∷ xs)
        → Returns (λ r'. Unit {0}) (crc_loop fuel m' list (m'.next list) r)
    at [] ch e = absurd (omega (arith, e))
    at (y ∷ ys) ch e =
        rw ch.0 (crc_loop-Returns fuel m' y (m'.next y) r ys ch.2 (omega (arith, e, f)))

sort_by_data_skipped :
    (fuel finder_idx list : ℕ) (m : Store) (res : Results)
    → (finder_idx ≡ 0) ⊎ (2 ^ 15 ≤ finder_idx)
    → sort_by_data fuel finder_idx list m res ≡ some (list, m, res)
unfolding sort_by_data
sort_by_data_skipped fuel finder_idx list m res (inl e) = rw e refl
sort_by_data_skipped fuel finder_idx list m res (inr le) =
    let big : ltb finder_idx (2 ^ 15) ≡ false = ground (arith, le) in
    elim (Bool-cases (finder_idx == 0)) [ inl e ↦ rw e refl | inr e ↦ rw (e, big) refl ]

InOrder-trans :
    (m m' m'' : Store) (xs : List ℕ) (list list' : ℕ) (r : Reordered m xs list m')
    → InOrder m' r.order list' m''
    → InOrder m xs list' m''
InOrder-trans m m' m'' xs list list' r h = record {
  order = h.order;
  perm = Perm.trans h.perm r.perm;
  in_order = h.in_order;
  chain = h.chain;
  info = λ x. h.info x ∙ ap (λ (i : ℕ → ℕ). i x) r.info;
  data16 = λ x. subst (λ (g : ℕ → ℕ). Rebuilt (g x) (m''.data16 x)) r.data16 (h.data16 x);
  restored = λ x e.
      Rebuilt-restored (m.data16 x) (m''.data16 x)
        (subst (λ (g : ℕ → ℕ). Rebuilt (g x) (m''.data16 x)) r.data16 (h.data16 x)) e;
  idx = λ x. h.idx x ∙ ap (λ (i : ℕ → ℕ). i x) r.idx;
}

-- A list of at least three heads.
three_of :
    (xs : List ℕ)
    → 3 ≤ length xs
    → (a : ℕ) × (x : ℕ) × (y : ℕ) × (back : List ℕ) × (xs ≡ a ∷ x ∷ y ∷ back)
three_of [] n = absurd (omega (arith, n))
three_of (a ∷ []) n = absurd (omega (arith, n))
three_of (a ∷ x ∷ []) n = absurd (omega (arith, n))
three_of (a ∷ x ∷ y ∷ back) n = (a, x, y, back, refl)

three_heads :
    (m : Store) (list a x y : ℕ) (back : List ℕ)
    → Chained m list (a ∷ x ∷ y ∷ back)
    → (list == 0 || m.next list == 0 || m.next (m.next list) == 0) ≡ false
three_heads m list a x y back (at, live, (at', live', (at_y, live_y, ch))) =
    rw (at, at', at_y) (ground (arith, live, live', live_y))

-- On a list of distinct heads, at least three, fewer than the fuel and than 2 ^ 30, with indices below
-- 2 ^ 16, and with a `finder_idx` that is 0 or negative, `core_bench_list` returns, whatever is looked
-- for. The results of the kernels are as before, and the store holds the same heads in the signed order
-- of their indices, each with the data pointer that it had. No index has changed, and each datum is as it
-- was or has its upper byte in the place of the lower one, too: a datum with two equal bytes is as it was.
pub core_bench_list-InOrder :
    (fuel list find_num finder_idx unset : ℕ) (m : Store) (res : Results) (xs : List ℕ)
    → Chained m list xs
    → Distinct xs
    → 3 ≤ length xs
    → length xs < fuel
    → length xs < 2 ^ 30
    → ((a : ℕ) → m.idx a < 2 ^ 16)
    → (finder_idx ≡ 0) ⊎ (2 ^ 15 ≤ finder_idx)
    → Returns
        (λ out. (out.2 ≡ res) × (list' : ℕ) × InOrder m xs list' out.1)
        (core_bench_list fuel list find_num finder_idx unset m res)
unfolding core_bench_list
core_bench_list-InOrder fuel list find_num finder_idx unset m res xs ch d three f small short off =
    bind
      (search_loop-Reordered m xs fuel (omega (arith, three)) f
        (if ltb find_num (2 ^ 15) then find_num else 0) 0 _
        (record {
          order = xs;
          perm = Perm.refl xs;
          distinct = d;
          chain = ch;
          info = refl;
          data16 = refl;
          idx = refl;
        }))
      λ s r.
        rw (sort_by_data_skipped fuel finder_idx s.list s.store res off)
          let (a, x, y, back, e) = three_of r.order (rw (Perm-length r.order xs r.perm) three) in
            let count : length (a ∷ x ∷ y ∷ back) ≡ length xs =
              ap length (sym e) ∙ Perm-length r.order xs r.perm in
            let ch' = subst (Chained s.store s.list) e r.chain in
            let d' = subst Distinct e r.distinct in
            let ((ax, (ay, ab)), ((xy, xb), (yb, db))) = d' in
            let (at, live, (at_x, live_x, (at_y, live_y, rest))) = ch' in
            let second : s.store.next s.list ≡ x = ap s.store.next at ∙ at_x in
            let removed =
              core_list_remove-Removed s.store s.list x y (a ∷ []) back ch' xy
                ((λ i. ax (sym i)), tt) ((λ i. ay (sym i)), tt) xb yb in
            let undone = core_list_undo_remove-SameStore x s.store (λ i. xy (sym i ∙ at_y)) in
            let m1 = (core_list_remove x s.store).1 in
            let still : m1.next s.list ≡ x = ap m1.next removed.list.0 ∙ removed.list.2.0 in
            rw (three_heads s.store s.list a x y back ch', second)
              (bind
                (core_list_find-Found fuel m1 s.list s.info (a ∷ x ∷ back) removed.list
                  (omega (arith, count, f)))
                λ p found.
                  bind
                    (first_crc fuel m1 s.list p _ a (x ∷ back) s.info removed.list
                      (omega (arith, count, f)) found)
                    λ retval _. rw still (
                      bind
                        (sort_by_idx-InOrder fuel s.list s.store _ a (x ∷ y ∷ back) undone.1 ch' d'
                          (omega (arith, count, f)) (omega (arith, count, small))
                          (λ i. subst (λ (g : ℕ → ℕ). g i < 2 ^ 16) (sym r.idx) (short i)))
                        λ out h.
                          bind
                            (last_crc fuel s.store out.1 out.0 retval a (x ∷ y ∷ back) h
                              (omega (arith, count, f)))
                            λ r' _. returns (
                              refl,
                              out.0,
                              InOrder-trans m s.store out.1 xs s.list out.0 r
                                  (subst (λ l. InOrder s.store l out.0 out.1) (sym e) h),
                            )))
