-- ===== src/Coremark/Links/Find.antt =====
-- `core_list_find`.
use mlonmcu_sw.Base.{
  ℕ, zero, suc, ◌<◌, ◌≤◌, ◌%◌, ◌^◌, ltb, ◌≡◌, arith, List, [], ◌∷◌, ◌++◌, All, ◌==◌, length, true,
  false, Bool-cases, inl, inr,
}
use mlonmcu_sw.Base.Partial.{Returns, returns, mono}
use mlonmcu_sw.Coremark.Links.{Store, ListData, matches, find_loop, core_list_find}
use mlonmcu_sw.Coremark.Links.Chained.{Chained}

-- A head whose index is the one looked for, where that is not negative as an `ee_s16`; for a negative one,
-- a head whose datum has the lower byte looked for.
pub data IsWanted (m : Store) (info : ListData) (x : ℕ) : Type 0 where
  by_index : info.idx < 2 ^ 15 → m.idx (m.info x) ≡ info.idx → IsWanted m info x
  by_datum : 2 ^ 15 ≤ info.idx → m.data16 (m.info x) % 2 ^ 8 ≡ info.data16 → IsWanted m info x

matches-IsWanted :
    (m : Store) (info : ListData) (x : ℕ) → matches m info x ≡ true → IsWanted m info x
unfolding matches
matches-IsWanted m info x e = elim (Bool-cases (ltb info.idx (2 ^ 15))) [
  | inl l ↦ by_index (ground (arith, l)) (ground (arith, l))
  | inr h ↦ by_datum (ground (arith, h)) (ground (arith, h))
]

other-IsWanted :
    (m : Store) (info : ListData) (x : ℕ) → matches m info x ≡ false → ¬ IsWanted m info x
unfolding matches
other-IsWanted m info x e (by_index low same) = ground arith
other-IsWanted m info x e (by_datum high same) = ground arith

-- What a search of the heads gives: NULL where none matches, or the first one that does.
pub data Found (m : Store) (info : ListData) : List ℕ → ℕ → Type 0 where
  nowhere : {xs : List ℕ} → All (λ x. ¬ IsWanted m info x) xs → Found m info xs 0
  found_at :
      (front : List ℕ) (x : ℕ) (back : List ℕ)
      → All (λ y. ¬ IsWanted m info y) front
      → IsWanted m info x
      → Found m info (front ++ x ∷ back) x

later :
    (m : Store) (info : ListData) (x p : ℕ) (xs : List ℕ)
    → ¬ IsWanted m info x
    → Found m info xs p
    → Found m info (x ∷ xs) p
later m info x p xs e (nowhere none_there) = nowhere (e, none_there)
later m info x p xs e (found_at front y back before here) =
    found_at (x ∷ front) y back (e, before) here

-- On a list of fewer heads than the fuel, `core_list_find` returns NULL where no head has what is
-- looked for, and else the first head that has: the index, where the one looked for is below 2 ^ 15 (so
-- that it is not negative as an `ee_s16`), or else the lower byte of the datum.
pub core_list_find-Found :
    (fuel : ℕ) (m : Store) (list : ℕ) (info : ListData) (xs : List ℕ)
    → Chained m list xs
    → length xs < fuel
    → Returns (Found m info xs) (core_list_find fuel m list info)
unfolding core_list_find find_loop
core_list_find-Found zero m list info xs ch f = absurd (omega arith)
core_list_find-Found (suc fuel) m list info [] ch f = rw ch (returns (nowhere tt))
core_list_find-Found (suc fuel) m list info (x ∷ xs) (head, live, ch) f =
    let go : (x == 0) ≡ false = ground (arith, live) in
    elim (Bool-cases (matches m info x)) [
      | inl e ↦ rw (head, go, e) (returns (found_at [] x xs tt (matches-IsWanted m info x e)))
      | inr e ↦
          rw (head, go, e)
            (mono (core_list_find-Found fuel m (m.next x) info xs ch (omega arith))
              λ p h. later m info x p xs (other-IsWanted m info x e) h)
    ]
