-- ===== src/Coremark/Links/Sort/Passes.antt =====
-- `core_list_mergesort`: a pass over the list merges its runs two by two.
use mathlib.Core.List.{append-nil, append_assoc}
use mlonmcu_sw.Base.{
  ℕ, zero, suc, ◌+◌, ◌≡◌, ◌≢◌, ◌≤◌, ◌<◌, ◌⊎◌, inl, inr, refl, arith, ap, sym, subst, ◌∙◌, false,
  Option, some, List, [], ◌∷◌, ◌++◌, length, ◌==◌,
}
use mlonmcu_sw.Base.Partial.{Returns, returns, bind, mono, ◌>>=◌}
use mlonmcu_sw.Coremark.Links.{Store}
use mlonmcu_sw.Coremark.Links.Chained.{Chained}
use mlonmcu_sw.Coremark.Links.Sort.{Merging, walk, merge_loop, pass_loop}
use mlonmcu_sw.Coremark.Links.Sort.Runs.{merge, merge_nil, Full, concat, pairs}
use mlonmcu_sw.Coremark.Links.Sort.Splits.{Split, next_run, Linked, Merged}
use mlonmcu_sw.Coremark.Links.Sort.Steps.{Midway, ByKey, head_key, merge_loop-Midway}

Linked-of_Chained : (m : Store) (p : ℕ) (xs us : List ℕ) → Chained m p (xs ++ us) → Linked m p xs
Linked-of_Chained m p [] us h = tt
Linked-of_Chained m p (x ∷ xs) us (at, live, h) = (at, live, Linked-of_Chained m (m.next x) xs us h)

-- The walk along a run, which the rest of the list follows.
walk_lem :
    (n : ℕ) (m : Store) (p k x : ℕ) (r us : List ℕ)
    → length (x ∷ r) ≤ n
    → (us ≡ []) ⊎ (n ≡ length (x ∷ r))
    → Chained m p (x ∷ r ++ us)
    → ((walk n m p k).1 ≡ k + length (x ∷ r)) × Chained m (walk n m p k).0 us
unfolding walk
walk_lem zero m p k x r us f l h = absurd (omega (arith, f))
walk_lem (suc n) m p k x [] [] f l (at, live, h) =
    let end : m.next p ≡ 0 = ap m.next at ∙ h in rw end (refl, refl)
walk_lem (suc n) m p k x [] (u ∷ us) f (inl e) h = absurd (ground (arith, e))
walk_lem (suc zero) m p k x [] (u ∷ us) f (inr e) (at, live, h) =
    let next : m.next p ≡ u = ap m.next at ∙ h.0 in
    let more : (u == 0) ≡ false = ground (arith, h.1) in rw (next, more) (refl, (refl, h.1, h.2))
walk_lem (suc (suc n)) m p k x [] (u ∷ us) f (inr e) h = absurd (omega (arith, e))
walk_lem (suc n) m p k x (y ∷ r) us f l (at, live, h) =
    let next : m.next p ≡ y = ap m.next at ∙ h.0 in
    let more : (y == 0) ≡ false = ground (arith, h.1) in
    let (count, rest) =
      walk_lem n m y (k + 1) y r us (omega (arith, f)) (less l) (refl, h.1, h.2) in
    rw (next, more) (count ∙ omega arith, rest)
  where
    less : (us ≡ []) ⊎ (suc n ≡ length (x ∷ y ∷ r)) → (us ≡ []) ⊎ (n ≡ length (y ∷ r))
    less (inl e) = inl e
    less (inr e) = inr (omega (arith, e))

module _ {S : Type 0} (Inv : S → Type 0) (info : ℕ → ℕ) where
  -- Between two merges: what is merged, and what is left from `p` on.
  pub record Between (done us : List ℕ) (st : Merging S) : Type 0 where
    pub split : Split done [] us
    pub merged : Merged st.store st.list st.tail done
    pub at_p : Chained st.store st.p us
    pub info_kept : st.store.info ≡ info
    pub inv : Inv st.res

  -- The state that the merge of two runs begins with.
  begin :
      (n : ℕ) (done : List ℕ) (x : ℕ) (r r' zs : List ℕ) (st : Merging S)
      → length (x ∷ r) ≤ n
      → (r' ++ zs ≡ []) ⊎ (n ≡ length (x ∷ r))
      → length r' ≤ n
      → (zs ≡ []) ⊎ (n ≡ length r')
      → Between done (x ∷ r ++ (r' ++ zs)) st
      → Midway Inv info done (x ∷ r) r' zs (record st {
        q = (walk n st.store st.p 0).0;
        psize = (walk n st.store st.p 0).1;
        qsize = n;
      })
  begin n done x r r' zs st fits whole fits' whole' b =
      let (count, rest) = walk_lem n st.store st.p 0 x r (r' ++ zs) fits whole b.at_p in
      record {
        split = next_run done (x ∷ r) (r' ++ zs) b.split;
        merged = b.merged;
        at_p = Linked-of_Chained st.store st.p (x ∷ r) (r' ++ zs) b.at_p;
        psize = count ∙ omega arith;
        at_q = rest;
        qsize = fits';
        limit = whole';
        info_kept = b.info_kept;
        inv = b.inv;
      }

  -- The end of a merge.
  end :
      (done zs : List ℕ) (st : Merging S)
      → Midway Inv info done [] [] zs st
      → Between done zs (record st { p = st.q })
  end done zs st w = record {
    split = w.split;
    merged = w.merged;
    at_p = w.at_q;
    info_kept = w.info_kept;
    inv = w.inv;
  }

  module _ (cmp : ℕ → ℕ → S → Option (ℕ × S)) (key : ℕ → ℕ) (by_key : ByKey Inv key cmp) where
    abbrev pub order : ℕ → ℕ
    order = head_key Inv info cmp key by_key

    pass_end :
        (fuel n k : ℕ) (st : Merging S) → st.p ≡ 0 → pass_loop cmp (suc fuel) n k st ≡ some (k, st)
    unfolding pass_loop
    pass_end fuel n k st e = rw e refl

    pass_round :
        (fuel n k : ℕ) (st : Merging S)
        → st.p ≢ 0
        → pass_loop cmp (suc fuel) n k st ≡ (
            merge_loop cmp ((walk n st.store st.p 0).1 + n + 1) (record st {
              q = (walk n st.store st.p 0).0;
              psize = (walk n st.store st.p 0).1;
              qsize = n;
            })
            >>= λ st'. pass_loop cmp fuel n (k + 1) (record st' { p = st'.q }))
    unfolding pass_loop
    pass_round fuel n k st h = let a : (st.p == 0) ≡ false = ground (arith, h) in rw a refl

    -- The result of a pass: the number of merges, and the new list.
    abbrev pub Passed : (k : ℕ) → (done : List ℕ) → (rs : List (List ℕ)) → ℕ × Merging S → Type 0
    Passed k done rs out =
        (out.0 ≡ k + length (pairs order rs)) × Between (done ++ concat (pairs order rs)) [] out.1

    one_merge :
        (fuel n k : ℕ) (done : List ℕ) (x : ℕ) (r r' zs : List ℕ) (st : Merging S)
        → length (x ∷ r) ≤ n
        → (r' ++ zs ≡ []) ⊎ (n ≡ length (x ∷ r))
        → length r' ≤ n
        → (zs ≡ []) ⊎ (n ≡ length r')
        → Between done (x ∷ r ++ (r' ++ zs)) st
        → (P : ℕ × Merging S → Type 0)
        → ((st' : Merging S)
            → Between (done ++ merge order (x ∷ r) r') zs st'
            → Returns P (pass_loop cmp fuel n (k + 1) st'))
        → Returns P (pass_loop cmp (suc fuel) n k st)
    one_merge fuel n k done x r r' zs st fits whole fits' whole' b P later =
        let w = begin n done x r r' zs st fits whole fits' whole' b in
        let st1 = record st {
          q = (walk n st.store st.p 0).0;
          psize = (walk n st.store st.p 0).1;
          qsize = n;
        } in
        let enough : length (x ∷ r) + length r' < (walk n st.store st.p 0).1 + n + 1 =
          omega (arith, w.psize, fits') in
        rw (pass_round fuel n k st (λ e. b.at_p.1 (sym b.at_p.0 ∙ e))) (
          bind
            (merge_loop-Midway Inv info cmp key by_key ((walk n st.store st.p 0).1 + n + 1) done
              (x ∷ r) r' zs st1 enough w)
            (λ st' w'.
              later (record st' { p = st'.q }) (end (done ++ merge order (x ∷ r) r') zs st' w')))

    pub pass_loop-Passed :
        (fuel n k : ℕ) (done : List ℕ) (rs : List (List ℕ)) (st : Merging S)
        → 1 ≤ n
        → Full n rs
        → length rs < fuel
        → Between done (concat rs) st
        → Returns (Passed k done rs) (pass_loop cmp fuel n k st)
    pass_loop-Passed zero n k done rs st one full f b = absurd (omega (arith, f))
    pass_loop-Passed (suc fuel) n k done [] st one full f b =
        rw (pass_end fuel n k st b.at_p)
          (returns (omega arith, subst (λ l. Between l [] st) (sym (append-nil done)) b))
    pass_loop-Passed (suc fuel) n k done ([] ∷ []) st one full f b = absurd (omega (arith, full.0))
    pass_loop-Passed (suc fuel) n k done ((x ∷ r) ∷ []) st one full f b =
        one_merge fuel n k done x r [] [] st full.1 (inl refl) (omega arith) (inl refl) b
          (Passed k done ((x ∷ r) ∷ []))
          λ st' b'.
            mono
              (pass_loop-Passed fuel n (k + 1) (done ++ merge order (x ∷ r) []) [] st' one tt
                (omega (arith, f)) b')
              λ out h. (
                h.0 ∙ omega arith,
                subst (λ l. Between l [] out.1)
                    (append_assoc done (merge order (x ∷ r) []) []
                      ∙ ap (λ l. done ++ (l ++ [])) (merge_nil order (x ∷ r)))
                    h.1,
              )
    pass_loop-Passed (suc fuel) n k done ([] ∷ r' ∷ rs) st one full f b =
        absurd (omega (arith, full.0, one))
    pass_loop-Passed (suc fuel) n k done ((x ∷ r) ∷ r' ∷ rs) st one full f b =
        one_merge fuel n k done x r r' (concat rs) st (omega (arith, full.0)) (inr (sym full.0))
          (short rs full.1) (last rs full.1) b (Passed k done ((x ∷ r) ∷ r' ∷ rs))
          λ st' b'.
            mono
              (pass_loop-Passed fuel n (k + 1) (done ++ merge order (x ∷ r) r') rs st' one
                (rest rs full.1) (omega (arith, f)) b')
              λ out h. (
                h.0 ∙ omega arith,
                subst (λ l. Between l [] out.1)
                    (append_assoc done (merge order (x ∷ r) r') (concat (pairs order rs))) h.1,
              )
      where
        short : (rs : List (List ℕ)) → Full n (r' ∷ rs) → length r' ≤ n
        short [] h = h.1
        short (r'' ∷ rs) h = omega (arith, h.0)

        last : (rs : List (List ℕ)) → Full n (r' ∷ rs) → (concat rs ≡ []) ⊎ (n ≡ length r')
        last [] h = inl refl
        last (r'' ∷ rs) h = inr (sym h.0)

        rest : (rs : List (List ℕ)) → Full n (r' ∷ rs) → Full n rs
        rest [] h = tt
        rest (r'' ∷ rs) h = h.1
