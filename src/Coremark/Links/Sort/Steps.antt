-- ===== src/Coremark/Links/Sort/Steps.antt =====
-- `core_list_mergesort`: the merge of two runs.
use mathlib.Core.List.{append-nil, append_assoc}
use mlonmcu_sw.Base.{
  ℕ, zero, suc, ◌+◌, ◌-◌, ◌≡◌, ◌≢◌, ◌≤◌, ◌<◌, ◌⊎◌, inl, inr, refl, arith, ap, sym, subst, ◌∙◌, Bool,
  Bool-cases, true, false, not, Option, some, List, [], ◌∷◌, ◌++◌, length, leb, ◌==◌, if◌then◌else◌,
  slt32,
}
use mlonmcu_sw.Base.Partial.{Returns, returns, result}
use mlonmcu_sw.Coremark.Links.Chained.{Chained}
use mlonmcu_sw.Coremark.Links.Sort.{Merging, from_p, from_q, merge_step, merge_loop}
use mlonmcu_sw.Coremark.Links.Sort.Runs.{merge, merge_nil}
use mlonmcu_sw.Coremark.Links.Sort.Splits.{Apart-tail, Split, take_p, take_q, Linked, Merged}
use mlonmcu_sw.Coremark.Links.Sort.Adding.{stored, Merged-add, kept_run, kept_rest, kept_info}

-- A comparison that goes by keys, as long as an invariant of its state holds, and keeps the invariant.
pub record ByKey {S : Type 0} (Inv : S → Type 0) (key : ℕ → ℕ) (cmp : ℕ → ℕ → S → Option (ℕ × S))
    : Type 0 where
  pub decides :
      (a b : ℕ) (s : S)
      → Inv s
      → Returns (λ r. (slt32 0 r.0 ≡ not (leb (key a) (key b))) × Inv r.1) (cmp a b s)

module _ {S : Type 0} (Inv : S → Type 0) (info : ℕ → ℕ) where
  -- A merge on its way: what is merged, what is left of the run at `p` and of that at `q`, and the rest.
  pub record Midway (done xs ys zs : List ℕ) (st : Merging S) : Type 0 where
    pub split : Split done xs (ys ++ zs)
    pub merged : Merged st.store st.list st.tail done
    pub at_p : Linked st.store st.p xs
    pub psize : st.psize ≡ length xs
    pub at_q : Chained st.store st.q (ys ++ zs)
    pub qsize : length ys ≤ st.qsize
    pub limit : (zs ≡ []) ⊎ (st.qsize ≡ length ys)
    pub info_kept : st.store.info ≡ info
    pub inv : Inv st.res

  Midway-from_p :
      (done xs ys zs : List ℕ) (x : ℕ) (st : Merging S)
      → Midway done (x ∷ xs) ys zs st
      → Midway (done ++ x ∷ []) xs ys zs (from_p st)
  Midway-from_p done xs ys zs x st w =
      let s = take_p done xs (ys ++ zs) x w.split in
      let at = w.at_p.0 in
      record {
        split = s;
        merged =
            subst
              (λ (e : ℕ).
                Merged (stored st.tail e st.store) (if st.tail == 0 then e else st.list) e
                  (done ++ x ∷ []))
              (sym at)
              (Merged-add st.store st.list st.tail x done w.at_p.1 w.split.merged w.merged);
        at_p =
            kept_run st.store st.list st.tail st.p done xs (st.store.next st.p) w.merged
              (Apart-tail done xs x w.split.merged_run)
              (subst (λ (p : ℕ). Linked st.store (st.store.next p) xs) (sym at) w.at_p.2);
        psize = omega (arith, w.psize);
        at_q =
            kept_rest st.store st.list st.tail st.p done (ys ++ zs) st.q w.merged
              w.split.merged_later w.at_q;
        qsize = w.qsize;
        limit = w.limit;
        info_kept = kept_info st.store st.list st.tail st.p ∙ w.info_kept;
        inv = w.inv;
      }

  Midway-from_q :
      (done xs ys zs : List ℕ) (y : ℕ) (st : Merging S)
      → Midway done xs (y ∷ ys) zs st
      → Midway (done ++ y ∷ []) xs ys zs (from_q st)
  Midway-from_q done xs ys zs y st w =
      let at = w.at_q.0 in
      record {
        split = take_q done xs (ys ++ zs) y w.split;
        merged =
            subst
              (λ (e : ℕ).
                Merged (stored st.tail e st.store) (if st.tail == 0 then e else st.list) e
                  (done ++ y ∷ []))
              (sym at)
              (Merged-add st.store st.list st.tail y done w.at_q.1 w.split.merged w.merged);
        at_p =
            kept_run st.store st.list st.tail st.q done xs st.p w.merged w.split.merged_run w.at_p;
        psize = w.psize;
        at_q =
            kept_rest st.store st.list st.tail st.q done (ys ++ zs) (st.store.next st.q) w.merged
              (Apart-tail done (ys ++ zs) y w.split.merged_later)
              (subst (λ (q : ℕ). Chained st.store (st.store.next q) (ys ++ zs)) (sym at) w.at_q.2);
        qsize = omega (arith, w.qsize);
        limit = shorter w.limit;
        info_kept = kept_info st.store st.list st.tail st.q ∙ w.info_kept;
        inv = w.inv;
      }
    where
      shorter : (zs ≡ []) ⊎ (st.qsize ≡ length (y ∷ ys)) → (zs ≡ []) ⊎ (st.qsize - 1 ≡ length ys)
      shorter (inl e) = inl e
      shorter (inr e) = inr (omega (arith, e))

  Midway-res :
      (done xs ys zs : List ℕ) (st : Merging S) (r : S)
      → Inv r
      → Midway done xs ys zs st
      → Midway done xs ys zs (record st { res = r })
  Midway-res done xs ys zs st r i w = record {
    split = w.split;
    merged = w.merged;
    at_p = w.at_p;
    psize = w.psize;
    at_q = w.at_q;
    qsize = w.qsize;
    limit = w.limit;
    info_kept = w.info_kept;
    inv = i;
  }

  module _ (cmp : ℕ → ℕ → S → Option (ℕ × S)) (key : ℕ → ℕ) (by_key : ByKey Inv key cmp) where
    -- The key of a head.
    abbrev pub head_key : ℕ → ℕ
    head_key x = key (info x)

    loop_end :
        (fuel : ℕ) (st : Merging S)
        → st.psize ≡ 0
        → (st.q ≡ 0) ⊎ (st.qsize ≡ 0)
        → merge_loop cmp (suc fuel) st ≡ some st
    unfolding merge_loop
    loop_end fuel st e (inl q) = elim (Bool-cases (st.qsize == 0)) [
      | inl b ↦ rw (e, q, b) refl
      | inr b ↦ rw (e, q, b) refl
    ]
    loop_end fuel st e (inr n) = rw (e, n) refl

    loop_more :
        (fuel : ℕ) (st st' : Merging S)
        → (st.psize ≢ 0) ⊎ ((st.qsize ≢ 0) × (st.q ≢ 0))
        → merge_step cmp st ≡ some st'
        → merge_loop cmp (suc fuel) st ≡ merge_loop cmp fuel st'
    unfolding merge_loop
    loop_more fuel st st' (inl h) e =
        let a : (st.psize == 0) ≡ false = ground (arith, h) in rw (e, a) refl
    loop_more fuel st st' (inr h) e =
        let a : (st.qsize == 0) ≡ false = ground (arith, h.0) in
        let b : (st.q == 0) ≡ false = ground (arith, h.1) in
        elim (Bool-cases (st.psize == 0)) [
          | inl c ↦ rw (e, a, b, c) refl
          | inr c ↦ rw (e, a, b, c) refl
        ]

    step_q : (st : Merging S) → st.psize ≡ 0 → merge_step cmp st ≡ some (from_q st)
    unfolding merge_step
    step_q st e = rw e refl

    step_p :
        (st : Merging S)
        → st.psize ≢ 0
        → (st.q ≡ 0) ⊎ (st.qsize ≡ 0)
        → merge_step cmp st ≡ some (from_p st)
    unfolding merge_step
    step_p st h (inl q) =
        let a : (st.psize == 0) ≡ false = ground (arith, h) in
        let b : (st.q == 0) ≡ true = ground (arith, q) in
        elim (Bool-cases (st.qsize == 0)) [ inl c ↦ rw (a, b, c) refl | inr c ↦ rw (a, b, c) refl ]
    step_p st h (inr n) = let a : (st.psize == 0) ≡ false = ground (arith, h) in rw (a, n) refl

    step_cmp :
        (st : Merging S) (r : ℕ × S)
        → st.psize ≢ 0
        → st.qsize ≢ 0
        → st.q ≢ 0
        → cmp (st.store.info st.p) (st.store.info st.q) st.res ≡ some r
        → merge_step cmp st
          ≡ some (
              if slt32 0 r.0
              then from_q (record st { res = r.1 })
              else from_p (record st { res = r.1 }))
    unfolding merge_step
    step_cmp st r h1 h2 h3 e =
        let a : (st.psize == 0) ≡ false = ground (arith, h1) in
        let b : (st.qsize == 0) ≡ false = ground (arith, h2) in
        let c : (st.q == 0) ≡ false = ground (arith, h3) in rw (a, b, c, e) refl

    ended :
        (st : Merging S) (zs : List ℕ)
        → Chained st.store st.q zs
        → (zs ≡ []) ⊎ (st.qsize ≡ 0)
        → (st.q ≡ 0) ⊎ (st.qsize ≡ 0)
    ended st [] at l = inl at
    ended st (z ∷ zs) at (inl e) = absurd (ground (arith, e))
    ended st (z ∷ zs) at (inr e) = inr e

    -- A comparison of the first heads of both runs.
    decided :
        (x y : ℕ) (st : Merging S)
        → st.p ≡ x
        → st.q ≡ y
        → st.store.info ≡ info
        → Inv st.res
        → (r : ℕ × S) × (cmp (st.store.info st.p) (st.store.info st.q) st.res ≡ some r)
          × (slt32 0 r.0 ≡ not (leb (head_key x) (head_key y)))
          × Inv r.1
    decided x y st ex ey ei i =
        let (r, e, ok) =
          result (by_key.decides (st.store.info st.p) (st.store.info st.q) st.res i) in
        (
          r,
          e,
          ok.0
              ∙ ap (λ (f : ℕ → ℕ). not (leb (key (f st.p)) (key (f st.q)))) ei
              ∙ ap (λ (a : ℕ). not (leb (key (info a)) (key (info st.q)))) ex
              ∙ ap (λ (a : ℕ). not (leb (key (info x)) (key (info a)))) ey,
          ok.1,
        )

    -- The loop merges what is left of the two runs behind what is merged already.
    pub merge_loop-Midway :
        (fuel : ℕ) (done xs ys zs : List ℕ) (st : Merging S)
        → length xs + length ys < fuel
        → Midway done xs ys zs st
        → Returns (Midway (done ++ merge head_key xs ys) [] [] zs) (merge_loop cmp fuel st)
    unfolding merge
    merge_loop-Midway zero done xs ys zs st f w = absurd (omega (arith, f))
    merge_loop-Midway (suc fuel) done [] [] zs st f w =
        rw (loop_end fuel st w.psize (ended st zs w.at_q w.limit))
          (returns (subst (λ l. Midway l [] [] zs st) (sym (append-nil done)) w))
    merge_loop-Midway (suc fuel) done [] (y ∷ ys) zs st f w =
        let open_q : st.qsize ≢ 0 = λ e. absurd (omega (arith, e, w.qsize)) in
        let more : st.q ≢ 0 = λ e. w.at_q.1 (sym w.at_q.0 ∙ e) in
        rw (loop_more fuel st (from_q st) (inr (open_q, more)) (step_q st w.psize)) (
          subst (λ l. Returns (Midway l [] [] zs) (merge_loop cmp fuel (from_q st)))
            (append_assoc done (y ∷ []) ys)
            (merge_loop-Midway fuel (done ++ y ∷ []) [] ys zs (from_q st) (omega (arith, f))
              (Midway-from_q done [] ys zs y st w)))
    merge_loop-Midway (suc fuel) done (x ∷ xs) [] zs st f w =
        let open_p : st.psize ≢ 0 = λ e. absurd (omega (arith, e, w.psize)) in
        rw
          (loop_more fuel st (from_p st) (inl open_p)
            (step_p st open_p (ended st zs w.at_q w.limit)))
          (subst (λ l. Returns (Midway l [] [] zs) (merge_loop cmp fuel (from_p st)))
            (append_assoc done (x ∷ []) (merge head_key xs [])
              ∙ ap (λ l. done ++ x ∷ l) (merge_nil head_key xs))
            (merge_loop-Midway fuel (done ++ x ∷ []) xs [] zs (from_p st) (omega (arith, f))
              (Midway-from_p done xs [] zs x st w)))
    merge_loop-Midway (suc fuel) done (x ∷ xs) (y ∷ ys) zs st f w =
        let open_p : st.psize ≢ 0 = λ e. absurd (omega (arith, e, w.psize)) in
        let open_q : st.qsize ≢ 0 = λ e. absurd (omega (arith, e, w.qsize)) in
        let more : st.q ≢ 0 = λ e. w.at_q.1 (sym w.at_q.0 ∙ e) in
        let (r, e, decision, inv) = decided x y st w.at_p.0 w.at_q.0 w.info_kept w.inv in
        let st1 = record st { res = r.1 } in
        let w1 = Midway-res done (x ∷ xs) (y ∷ ys) zs st r.1 inv w in
        let go = step_cmp st r open_p open_q more e in
        elim (Bool-cases (leb (head_key x) (head_key y))) [
          | inl le ↦
              let low : slt32 0 r.0 ≡ false = decision ∙ ap not le in
              rw
                (
                  loop_more fuel st (from_p st1) (inl open_p)
                      (go ∙ ap (λ (b : Bool). some (if b then from_q st1 else from_p st1)) low),
                  le,
                )
                (subst (λ l. Returns (Midway l [] [] zs) (merge_loop cmp fuel (from_p st1)))
                  (append_assoc done (x ∷ []) (merge head_key xs (y ∷ ys)))
                  (merge_loop-Midway fuel (done ++ x ∷ []) xs (y ∷ ys) zs (from_p st1)
                    (omega (arith, f)) (Midway-from_p done xs (y ∷ ys) zs x st1 w1)))
          | inr gt ↦
              let high : slt32 0 r.0 ≡ true = decision ∙ ap not gt in
              rw
                (
                  loop_more fuel st (from_q st1) (inl open_p)
                      (go ∙ ap (λ (b : Bool). some (if b then from_q st1 else from_p st1)) high),
                  gt,
                )
                (subst (λ l. Returns (Midway l [] [] zs) (merge_loop cmp fuel (from_q st1)))
                  (append_assoc done (y ∷ []) (merge head_key (x ∷ xs) ys))
                  (merge_loop-Midway fuel (done ++ y ∷ []) (x ∷ xs) ys zs (from_q st1)
                    (omega (arith, f)) (Midway-from_q done (x ∷ xs) ys zs y st1 w1)))
        ]
