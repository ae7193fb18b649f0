-- ===== src/Coremark/Links/Insert.antt =====
-- `core_list_insert_new`.
use mlonmcu_sw.Base.{
  u32, ℕ, ◌+◌, ◌^◌, ◌≤◌, ◌<◌, ◌≡◌, ◌≢◌, refl, arith, List, [], ◌∷◌, ◌++◌, All, leb, Bool-cases, inl,
  inr, ◌⊎◌,
}
use mlonmcu_sw.Coremark.Links.{
  Store, ListData, put_next, put_info, copy_info, Inserted, core_list_insert_new,
}
use mlonmcu_sw.Coremark.Links.Chained.{Chained, Chained-put_next}

-- The fields `info` and the data do not matter for the list.
pub Chained-same_next :
    (m m' : Store) (p : ℕ) (xs : List ℕ)
    → ((x : ℕ) → m'.next x ≡ m.next x)
    → Chained m p xs
    → Chained m' p xs
Chained-same_next m m' p [] same ch = ch
Chained-same_next m m' p (x ∷ xs) same (head, live, ch) =
    (head, live, rw (same x) (Chained-same_next m m' (m.next x) xs same ch))

module _ (m : Store) (x new : ℕ) (live : new ≢ 0) where
  -- The two writes of the links.
  abbrev linked : Store
  linked = put_next x new (put_next new (m.next x) m)

  pub Chained-linked :
      (p : ℕ) (front back : List ℕ)
      → Chained m p (front ++ x ∷ back)
      → All (λ y. new ≢ y) (front ++ x ∷ back)
      → All (λ y. x ≢ y) front
      → All (λ y. x ≢ y) back
      → Chained linked p (front ++ x ∷ new ∷ back)
  Chained-linked p [] back (head, alive, ch) fresh before behind =
      let next_x : linked.next x ≡ new = ground arith in
      let next_new : linked.next new ≡ m.next x = ground (arith, fresh.0) in
      let m' = put_next new (m.next x) m in
      let rest =
        Chained-put_next m' x new (m.next x) back behind
          (Chained-put_next m new (m.next x) (m.next x) back fresh.1 ch) in
      let tail : Chained linked (linked.next x) (new ∷ back) = (next_x, live, rw next_new rest) in
      (head, alive, tail)
  Chained-linked p (y ∷ front) back (head, alive, ch) fresh before behind =
      let same : linked.next y ≡ m.next y = ground (arith, fresh.0, before.0) in
      let rest = Chained-linked (m.next y) front back ch fresh.1 before.1 behind in
      (head, alive, rw same rest)

-- What an insertion behind the head `x` gives.
pub data Outcome (m : Store) (p x : ℕ) (info : ListData) (front back : List ℕ)
    (memblock datablock memblock_end datablock_end : ℕ) : Inserted → Type 0 where
  full :
      {r : Inserted}
      → (memblock_end ≤ memblock + 8) ⊎ (datablock_end ≤ datablock + 4)
      → r.item ≡ 0
      → r.memblock ≡ memblock
      → r.datablock ≡ datablock
      → r.store ≡ m
      → Outcome m p x info front back memblock datablock memblock_end datablock_end r
  inserted :
      {r : Inserted}
      → memblock + 8 < memblock_end
      → datablock + 4 < datablock_end
      → r.item ≡ memblock
      → r.memblock ≡ memblock + 8
      → r.datablock ≡ datablock + 4
      → Chained r.store p (front ++ x ∷ memblock ∷ back)
      → r.store.info memblock ≡ datablock
      → r.store.data16 datablock ≡ info.data16
      → r.store.idx datablock ≡ info.idx
      → Outcome m p x info front back memblock datablock memblock_end datablock_end r

-- On a list with the head `x`, which does not come again, and pointers to the next free head and data
-- below 2 ^ 31, where the free head is not 0 and not in the list, `core_list_insert_new` returns NULL
-- and changes nothing where the room for heads or for data would be used up, and else puts the free
-- head with a copy of the data behind `x` and leaves the other heads in their order.
pub core_list_insert_new-Outcome :
    (m : Store) (p x : ℕ) (info : ListData) (front back : List ℕ)
    (memblock datablock memblock_end datablock_end : ℕ)
    → memblock ≢ 0
    → memblock < 2 ^ 31
    → datablock < 2 ^ 31
    → Chained m p (front ++ x ∷ back)
    → All (λ y. memblock ≢ y) (front ++ x ∷ back)
    → All (λ y. x ≢ y) front
    → All (λ y. x ≢ y) back
    → Outcome m p x info front back memblock datablock memblock_end datablock_end
        (core_list_insert_new x info memblock datablock memblock_end datablock_end m)
unfolding core_list_insert_new copy_info
core_list_insert_new-Outcome m p x info front back memblock datablock memblock_end datablock_end
      live low low' ch fresh before behind =
    let up : u32 (memblock + 8) ≡ memblock + 8 = omega (arith, low) in
    let up' : u32 (datablock + 4) ≡ datablock + 4 = omega (arith, low') in
    let list = Chained-linked m x memblock live p front back ch fresh before behind in
    elim (Bool-cases (leb memblock_end (memblock + 8))) [
      | inl e ↦ rw (up, e) (full (inl (ground (arith, e))) refl refl refl refl)
      | inr e ↦ elim (Bool-cases (leb datablock_end (datablock + 4))) [
        | inl e' ↦ rw (up, e, up', e') (full (inr (ground (arith, e'))) refl refl refl refl)
        | inr e' ↦
            rw (up, e, up', e')
              (inserted (ground (arith, e)) (ground (arith, e')) refl refl refl
                (Chained-same_next (linked m x memblock live)
                  (copy_info datablock info
                    (put_info memblock datablock (linked m x memblock live)))
                  p (front ++ x ∷ memblock ∷ back) (λ y. refl) list)
                (ground arith) (ground arith) (ground arith))
      ]
    ]
