-- ===== src/Coremark/Links/Sort/Sorting.antt =====
-- `core_list_mergesort` ends with the heads in the order of their keys.
use mathlib.Core.List.Perm
use mathlib.Core.List.{Perm, append-nil}
use mlonmcu_sw.Base.{
  ℕ, zero, suc, ◌+◌, ◌*◌, ◌^◌, ◌%◌, ◌≡◌, ◌≢◌, ◌≤◌, ◌<◌, refl, arith, ap, sym, subst, ◌∙◌, false,
  Option, some, none, List, [], ◌∷◌, ◌++◌, All, length, length-append, leb, ◌==◌, if◌then◌else◌,
  u32,
}
use mlonmcu_sw.Base.Partial.{Returns, returns, bind, mono, ◌>>=◌}
use mlonmcu_sw.Coremark.Links.{Store, put_next}
use mlonmcu_sw.Coremark.Links.Chained.{Chained, Distinct}
use mlonmcu_sw.Coremark.Links.Sort.{Merging, pass_loop, sort_loop, core_list_mergesort}
use mlonmcu_sw.Coremark.Links.Sort.Runs.{
  length-concat-pairs, pairs_some, merge, Full, Full-pairs, concat, pairs, pairs-Perm,
  All-Sorted-pairs, Sorted, length-pairs,
}
use mlonmcu_sw.Coremark.Links.Sort.Splits.{all_later, Linked, last_of}
use mlonmcu_sw.Coremark.Links.Sort.Adding.{All-last, last-ne-zero}
use mlonmcu_sw.Coremark.Links.Sort.Steps.{ByKey}
use mlonmcu_sw.Coremark.Links.Sort.Passes.{Between, pass_loop-Passed, order}

-- `tail->next = NULL` ends the list.
Chained-close :
    (m : Store) (p x : ℕ) (xs : List ℕ)
    → Distinct (x ∷ xs)
    → Linked m p (x ∷ xs)
    → Chained (put_next (last_of (x ∷ xs)) 0 m) p (x ∷ xs)
Chained-close m p x [] d h =
    let ended : (put_next x 0 m).next x ≡ 0 = ground arith in (h.0, h.1, ended)
Chained-close m p x (y ∷ xs) d h =
    let other : (x == last_of (y ∷ xs)) ≡ false = ground (arith, All-last (λ z. x ≢ z) y xs d.0) in
    (h.0, h.1, rw other (Chained-close m (m.next x) y xs d.1 h.2))

-- The runs of a list that is not empty.
Full-length :
    (n : ℕ) (r r' : List ℕ) (rs : List (List ℕ))
    → Full n (r ∷ r' ∷ rs)
    → n ≤ length (concat (r ∷ r' ∷ rs))
Full-length n r r' rs h = omega (arith, h.0, length-append r (concat (r' ∷ rs)))

-- Each head as a run of its own.
abbrev single : List ℕ → List (List ℕ)
single [] = []
single (x ∷ xs) = (x ∷ []) ∷ single xs

concat-single : (xs : List ℕ) → concat (single xs) ≡ xs
concat-single [] = refl
concat-single (x ∷ xs) = ap (λ l. x ∷ l) (concat-single xs)

Full-single : (xs : List ℕ) → Full 1 (single xs)
Full-single [] = tt
Full-single (x ∷ []) = (omega arith, omega arith)
Full-single (x ∷ y ∷ xs) = (refl, Full-single (y ∷ xs))

length-single : (xs : List ℕ) → length (single xs) ≡ length xs
length-single [] = refl
length-single (x ∷ xs) = ap suc (length-single xs)

single-Sorted : (key : ℕ → ℕ) (xs : List ℕ) → All (Sorted key) (single xs)
single-Sorted key [] = tt
single-Sorted key (x ∷ xs) = ((tt, tt), single-Sorted key xs)

module _ {S : Type 0} (Inv : S → Type 0) (info key : ℕ → ℕ) where
  -- A list of the heads of another one in the order of their keys, with the data that they had.
  pub record IsSorting (xs : List ℕ) (out : ℕ × Store × S) : Type 0 where
    pub sorted : List ℕ
    pub perm : Perm sorted xs
    pub in_order : Sorted (λ x. key (info x)) sorted
    pub chain : Chained out.1 out.0 sorted
    pub info_kept : out.1.info ≡ info
    pub inv : Inv out.2

module _ {S : Type 0} (Inv : S → Type 0) (info : ℕ → ℕ) (cmp : ℕ → ℕ → S → Option (ℕ × S))
    (key : ℕ → ℕ) (by_key : ByKey Inv key cmp) where
  sort_round :
      (fuel n list : ℕ) (m : Store) (res : S)
      → sort_loop cmp (suc fuel) n list m res ≡ (
          pass_loop cmp (suc fuel) n 0 (record {
            list = 0;
            tail = 0;
            p = list;
            q = 0;
            psize = 0;
            qsize = 0;
            store = m;
            res = res;
          })
          >>= λ out.
              if out.1.tail == 0
              then none
              else if leb out.0 1
              then some (out.1.list, put_next out.1.tail 0 out.1.store, out.1.res)
              else sort_loop cmp fuel
                  (u32 (n * 2))
                  out.1.list
                  (put_next out.1.tail 0 out.1.store)
                  out.1.res)
  unfolding sort_loop
  sort_round fuel n list m res = refl

  closed_list :
      (out : List ℕ) (st : Merging S)
      → 1 ≤ length out
      → Between Inv info out [] st
      → (st.tail ≢ 0) × Chained (put_next st.tail 0 st.store) st.list out
  closed_list [] st h b = absurd (omega (arith, h))
  closed_list (x ∷ out) st h b =
      let end = b.merged.1 in
      (
        (λ e. last-ne-zero st.store st.list x out b.merged.0 (sym end ∙ e)),
        subst (λ (t : ℕ). Chained (put_next t 0 st.store) st.list (x ∷ out)) (sym end)
            (Chained-close st.store st.list x out b.split.merged b.merged.0),
      )

  -- One pass of the sort, and what is done with its result.
  one_pass :
      (fuel n list : ℕ) (m : Store) (res : S) (rs : List (List ℕ))
      → 1 ≤ n
      → Full n rs
      → length rs < suc fuel
      → 1 ≤ length (concat (pairs (order Inv info cmp key by_key) rs))
      → Distinct (concat rs)
      → Chained m list (concat rs)
      → m.info ≡ info
      → Inv res
      → (P : ℕ × Store × S → Type 0)
      → ((list' : ℕ) (m' : Store) (res' : S)
          → Distinct (concat (pairs (order Inv info cmp key by_key) rs))
          → Chained m' list' (concat (pairs (order Inv info cmp key by_key) rs))
          → m'.info ≡ info
          → Inv res'
          → Returns P (
              if leb (0 + length (pairs (order Inv info cmp key by_key) rs)) 1
              then some (list', m', res')
              else sort_loop cmp fuel (u32 (n * 2)) list' m' res'))
      → Returns P (sort_loop cmp (suc fuel) n list m res)
  one_pass fuel n list m res rs one full f filled d ch ei i P later =
      let st0 : Merging S = record {
        list = 0;
        tail = 0;
        p = list;
        q = 0;
        psize = 0;
        qsize = 0;
        store = m;
        res = res;
      } in
      let start : Between Inv info [] (concat rs) st0 = record {
        split = all_later (concat rs) d;
        merged = (tt, refl);
        at_p = ch;
        info_kept = ei;
        inv = i;
      } in
      rw (sort_round fuel n list m res) (
        bind (pass_loop-Passed Inv info cmp key by_key (suc fuel) n 0 [] rs st0 one full f start)
          λ out h.
            let (set, chain) =
              closed_list (concat (pairs (order Inv info cmp key by_key) rs)) out.1 filled h.1 in
            let tail : (out.1.tail == 0) ≡ false = ground (arith, set) in
            rw (tail, h.0)
              (later out.1.list (put_next out.1.tail 0 out.1.store) out.1.res h.1.split.merged chain
                h.1.info_kept h.1.inv))

  sort_loop-IsSorting :
      (fuel n list : ℕ) (m : Store) (res : S) (r : List ℕ) (rs : List (List ℕ))
      → 1 ≤ n
      → Full n (r ∷ rs)
      → All (Sorted (λ x. key (info x))) (r ∷ rs)
      → length (r ∷ rs) < fuel
      → length (concat (r ∷ rs)) < 2 ^ 30
      → Distinct (concat (r ∷ rs))
      → Chained m list (concat (r ∷ rs))
      → m.info ≡ info
      → Inv res
      → Returns (IsSorting Inv info key (concat (r ∷ rs))) (sort_loop cmp fuel n list m res)
  sort_loop-IsSorting zero n list m res r rs one full sorted f small d ch ei i =
      absurd (omega (arith, f))
  sort_loop-IsSorting (suc fuel) n list m res r [] one full sorted f small d ch ei i =
      one_pass fuel n list m res (r ∷ []) one full f (omega (arith, full.0, length-append r [])) d
        ch ei i (IsSorting Inv info key (concat (r ∷ [])))
        λ list' m' res' d' ch' ei' i'. returns (record {
          sorted = r ++ [];
          perm = Perm.refl (r ++ []);
          in_order = subst (Sorted (λ x. key (info x))) (sym (append-nil r)) sorted.0;
          chain = ch';
          info_kept = ei';
          inv = i';
        })
  sort_loop-IsSorting (suc fuel) n list m res r (r' ∷ []) one full sorted f small d ch ei i =
      let k = order Inv info cmp key by_key in
      let rs = r ∷ r' ∷ [] in
      one_pass fuel n list m res rs one full f
        (omega (arith, length-concat-pairs k rs, length-append r (r' ++ []), full.0, one)) d ch ei i
        (IsSorting Inv info key (concat rs))
        λ list' m' res' d' ch' ei' i'. returns (record {
          sorted = merge k r r' ++ [];
          perm = pairs-Perm k rs;
          in_order =
              subst (Sorted k) (sym (append-nil (merge k r r'))) (All-Sorted-pairs k rs sorted).0;
          chain = ch';
          info_kept = ei';
          inv = i';
        })
  sort_loop-IsSorting (suc fuel) n list m res r (r' ∷ r'' ∷ rest) one full sorted f small d ch ei
        i =
      let k = order Inv info cmp key by_key in
      let rs = r ∷ r' ∷ r'' ∷ rest in
      let ps = pairs k (r'' ∷ rest) in
      let many = pairs_some k r'' rest in
      let again : leb (0 + suc (length ps)) 1 ≡ false = ground (arith, many) in
      let doubled : (n * 2) % 2 ^ 32 ≡ n * 2 =
        omega (arith, Full-length n r r' (r'' ∷ rest) full, small) in
      one_pass fuel n list m res rs one full f
        (omega (
          arith,
          length-concat-pairs k rs,
          length-append r (concat (r' ∷ r'' ∷ rest)),
          full.0,
          one,
        ))
        d ch ei i (IsSorting Inv info key (concat rs))
        λ list' m' res' d' ch' ei' i'.
          rw (again, doubled)
            (mono
              (sort_loop-IsSorting fuel (n * 2) list' m' res' (merge k r r') ps (omega (arith, one))
                (Full-pairs k n rs one full) (All-Sorted-pairs k rs sorted)
                (omega (arith, f, length-pairs k (r'' ∷ rest), many))
                (omega (arith, length-concat-pairs k rs, small)) d' ch' ei' i')
              (λ out h. record {
                sorted = h.sorted;
                perm = Perm.trans h.perm (pairs-Perm k rs);
                in_order = h.in_order;
                chain = h.chain;
                info_kept = h.info_kept;
                inv = h.inv;
              }))

  -- On a list of distinct heads, at least one, fewer than the fuel and than 2 ^ 30, with a comparison
  -- that goes by keys under an invariant that it keeps and that holds at first, `core_list_mergesort`
  -- returns. From the result on, the store holds the same heads in the order of their keys, each with
  -- the data pointer that it had, and the invariant holds.
  pub core_list_mergesort-IsSorting :
      (fuel list : ℕ) (m : Store) (res : S) (x : ℕ) (xs : List ℕ)
      → Chained m list (x ∷ xs)
      → Distinct (x ∷ xs)
      → length (x ∷ xs) < fuel
      → length (x ∷ xs) < 2 ^ 30
      → m.info ≡ info
      → Inv res
      → Returns (IsSorting Inv info key (x ∷ xs)) (core_list_mergesort cmp fuel list m res)
  unfolding core_list_mergesort
  core_list_mergesort-IsSorting fuel list m res x xs ch d f small ei i =
      let e = concat-single (x ∷ xs) in
      subst (λ l. Returns (IsSorting Inv info key l) (sort_loop cmp fuel 1 list m res)) e
        (sort_loop-IsSorting fuel 1 list m res (x ∷ []) (single xs) (omega arith)
          (Full-single (x ∷ xs)) (single-Sorted (λ y. key (info y)) (x ∷ xs))
          (omega (arith, length-single (x ∷ xs), f)) (subst (λ l. length l < 2 ^ 30) (sym e) small)
          (subst Distinct (sym e) d) (subst (Chained m list) (sym e) ch) ei i)

-- On the empty list it writes through NULL.
core_list_mergesort_empty :
    {S : Type 0} (cmp : ℕ → ℕ → S → Option (ℕ × S)) (fuel : ℕ) (m : Store) (res : S)
    → core_list_mergesort cmp fuel 0 m res ≡ none
unfolding core_list_mergesort sort_loop pass_loop
core_list_mergesort_empty cmp zero m res = refl
core_list_mergesort_empty cmp (suc fuel) m res = refl
