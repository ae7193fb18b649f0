-- ===== src/Coremark/Links/Init/Block.antt =====
-- `core_list_init`: the list that the insertions make in the block.
use mlonmcu_sw.Base.{
  u32, ℕ, zero, suc, ◌+◌, ◌-◌, ◌*◌, ◌^◌, ◌≤◌, ◌<◌, ◌≡◌, ◌≢◌, ◌⊎◌, inl, inr, refl, arith, List, [],
  ◌∷◌, All, length, leb, Bool-cases, sym, subst, ◌∙◌,
}
use mlonmcu_sw.Coremark.Links.{Store, ListData, copy_info, Inserted, core_list_insert_new}
use mlonmcu_sw.Coremark.Links.Chained.{Chained, Distinct}
use mlonmcu_sw.Coremark.Links.Insert.{Outcome, full, inserted, core_list_insert_new-Outcome}
use mlonmcu_sw.Coremark.Links.Init.{insert_loop, pattern_of}

-- The heads behind the first one, the last one first.
abbrev pub down : (base n : ℕ) → List ℕ
down base zero = []
down base (suc n) = (base + 8 * suc n) ∷ down base n

pub length-down : (base n : ℕ) → length (down base n) ≡ n
length-down base zero = refl
length-down base (suc n) = omega (arith, length-down base n)

down-above : (base n x : ℕ) → x ≤ base → All (λ y. x ≢ y) (down base n)
down-above base zero x h = tt
down-above base (suc n) x h = (omega (arith, h), down-above base n x h)

down-below : (base n x : ℕ) → base + 8 * n < x → All (λ y. x ≢ y) (down base n)
down-below base zero x h = tt
down-below base (suc n) x h = (omega (arith, h), down-below base n x (omega (arith, h)))

down-Distinct : (base n : ℕ) → Distinct (down base n)
down-Distinct base zero = tt
down-Distinct base (suc n) =
    (down-below base n (base + 8 * suc n) (omega arith), down-Distinct base n)

pub block-Distinct : (base n : ℕ) → Distinct (base ∷ down base n)
block-Distinct base n = (down-above base n base (omega arith), down-Distinct base n)

-- The block after `n` insertions.
pub record Filled (base data_base n : ℕ) (at : Inserted) : Type 0 where
  pub memblock : at.memblock ≡ base + 8 * suc n
  pub datablock : at.datablock ≡ data_base + 4 * suc n
  pub chain : Chained at.store base (base ∷ down base n)
  pub short : (a : ℕ) → at.store.idx a < 2 ^ 16

insert_new-short :
    (x : ℕ) (info : ListData) (memblock datablock memblock_end datablock_end : ℕ) (m : Store)
    → info.idx < 2 ^ 16
    → ((a : ℕ) → m.idx a < 2 ^ 16)
    → (a : ℕ)
    → (core_list_insert_new x info memblock datablock memblock_end datablock_end m).store.idx a
      < 2 ^ 16
unfolding core_list_insert_new copy_info
insert_new-short x info memblock datablock memblock_end datablock_end m h short a =
    elim (Bool-cases (leb memblock_end (u32 (memblock + 8)))) [
      | inl e ↦ rw e (short a)
      | inr e ↦ elim (Bool-cases (leb datablock_end (u32 (datablock + 4)))) [
        | inl e' ↦ rw (e, e') (short a)
        | inr e' ↦ rw (e, e') (ground (arith, h, short a))
      ]
    ]

module _ (base size : ℕ) (live : base ≢ 0) (low : base + 12 * size < 2 ^ 31) where
  Filled-Outcome :
      (n : ℕ) (info : ListData) (m : Store) (memblock datablock : ℕ) (r : Inserted)
      → suc n < size
      → memblock ≡ base + 8 * suc n
      → datablock ≡ base + 8 * size + 4 * suc n
      → Chained m base (base ∷ down base n)
      → ((a : ℕ) → r.store.idx a < 2 ^ 16)
      → Outcome m base base info []
          (down base n)
          memblock
          datablock
          (base + 8 * size)
          (base + 12 * size)
          r
      → (Filled base (base + 8 * size) n r × (size ≤ n + 2))
        ⊎ (Filled base (base + 8 * size) (suc n) r × (n + 2 < size))
  Filled-Outcome n info m memblock datablock r room at at' ch short (full lack item em ed es) =
      inl (
        record {
          memblock = em ∙ at;
          datablock = ed ∙ at';
          chain = subst (λ (s : Store). Chained s base (base ∷ down base n)) (sym es) ch;
          short = short;
        },
        elim lack [ inl l ↦ omega (arith, l, at) | inr l ↦ omega (arith, l, at') ],
      )
  Filled-Outcome n info m memblock datablock r room at at' ch short
        (inserted more more' item em ed ch' di dd dx) =
      inr (
        record {
          memblock = omega (arith, em, at);
          datablock = omega (arith, ed, at');
          chain = subst (λ (b : ℕ). Chained r.store base (base ∷ b ∷ down base n)) at ch';
          short = short;
        },
        omega (arith, more, at),
      )

  pub insert_new-Filled :
      (n : ℕ) (info : ListData) (at : Inserted)
      → info.idx < 2 ^ 16
      → suc n < size
      → Filled base (base + 8 * size) n at
      → (Filled base (base + 8 * size) n (
            core_list_insert_new base info at.memblock at.datablock
              (base + 8 * size)
              (base + 12 * size)
              at.store)
          × (size ≤ n + 2))
        ⊎ (Filled base (base + 8 * size) (suc n) (
              core_list_insert_new base info at.memblock at.datablock
                (base + 8 * size)
                (base + 12 * size)
                at.store)
            × (n + 2 < size))
  insert_new-Filled n info at idx room f =
      Filled-Outcome n info at.store at.memblock at.datablock _ room f.memblock f.datablock f.chain
        (insert_new-short base info at.memblock at.datablock (base + 8 * size) (base + 12 * size)
          at.store idx f.short)
        (core_list_insert_new-Outcome at.store base base info [] (down base n) at.memblock
          at.datablock (base + 8 * size) (base + 12 * size) (omega (arith, f.memblock))
          (omega (arith, f.memblock, room, low)) (omega (arith, f.datablock, room, low)) f.chain
          (subst (λ (b : ℕ). All (λ y. b ≢ y) (base ∷ down base n)) (sym f.memblock)
            (omega arith, down-below base n (base + 8 * suc n) (omega arith)))
          tt (down-above base n base (omega arith)))

  pub insert_loop-Filled :
      (rounds i seed n : ℕ) (at : Inserted)
      → suc n < size
      → size ≤ n + 2 + rounds
      → Filled base (base + 8 * size) n at
      → Filled base
          (base + 8 * size)
          (size - 2)
          (insert_loop rounds i seed base (base + 8 * size) (base + 12 * size) at)
  unfolding insert_loop
  insert_loop-Filled zero i seed n at room enough f =
      subst (λ (k : ℕ). Filled base (base + 8 * size) k at) (omega (arith, room, enough)) f
  insert_loop-Filled (suc rounds) i seed n at room enough f =
      let info : ListData = record { data16 = pattern_of seed i; idx = 0x7fff } in
      elim (insert_new-Filled n info at (omega arith) room f) [
        | inl h ↦ insert_loop-Filled rounds (i + 1) seed n _ room (omega (arith, h.1)) h.0
        | inr h ↦
            insert_loop-Filled rounds (i + 1) seed (suc n) _ (omega (arith, h.1))
              (omega (arith, enough)) h.0
      ]
