-- ===== src/Coremark/Links/Init/Listed.antt =====
-- `core_list_init`: the list that it returns.
use mathlib.Core.List.{Perm}
use mlonmcu_sw.Base.{
  u32, ℕ, zero, suc, ◌+◌, ◌-◌, ◌*◌, ◌/◌, ◌%◌, ◌^◌, ◌≤◌, ◌<◌, ◌≡◌, ◌≢◌, inl, inr, refl, arith,
  Bool-cases, ltb, ◌==◌, if◌then◌else◌, false, none, List, [], ◌∷◌, length, ap, sym, subst, ◌∙◌,
}
use mlonmcu_sw.Base.Partial.{Returns, returns, bind, mono, ◌>>=◌}
use mlonmcu_sw.Coremark.Links.{Store, ListData, copy_info, Inserted, core_list_insert_new}
use mlonmcu_sw.Coremark.Links.Chained.{Chained}
use mlonmcu_sw.Coremark.Links.Insert.{Chained-same_next}
use mlonmcu_sw.Coremark.Links.Sort.Runs.{Sorted}
use mlonmcu_sw.Coremark.Links.Sort.ByIdx.{signed, core_list_mergesort-by_idx}
use mlonmcu_sw.Coremark.Links.Init.{
  items_of, put_items, head_item, index_of, index_loop, sort_by_idx, core_list_init, insert_loop,
}
use mlonmcu_sw.Coremark.Links.Init.Block.{
  down, length-down, block-Distinct, Filled, insert_new-Filled, insert_loop-Filled,
}

-- The list of `n + 1` heads from the start of the block on, in the signed order of their indices.
pub record IsListed (base n : ℕ) (out : ℕ × Store) : Type 0 where
  pub order : List ℕ
  pub perm : Perm order (base ∷ down base n)
  pub in_order : Sorted (λ x. signed (out.1.idx (out.1.info x))) order
  pub chain : Chained out.1 out.0 order

-- A store with the links and the data pointers of another one, and with indices below 2 ^ 16.
record Indexed (m m' : Store) : Type 0 where
  next : m'.next ≡ m.next
  info : m'.info ≡ m.info
  short : (a : ℕ) → m'.idx a < 2 ^ 16

index_of-short : (size seed i : ℕ) → index_of size seed i < 2 ^ 16
index_of-short size seed i = elim (Bool-cases (ltb i (size / 5))) [
  | inl e ↦ rw e (omega arith)
  | inr e ↦ rw e (omega arith)
]

index_loop-Indexed :
    (fuel size seed i x : ℕ) (xs : List ℕ) (m : Store)
    → length (x ∷ xs) ≤ fuel
    → ((a : ℕ) → m.idx a < 2 ^ 16)
    → Chained m x (x ∷ xs)
    → Returns (Indexed m) (index_loop fuel size seed i x m)
unfolding index_loop
index_loop-Indexed zero size seed i x xs m f short ch = absurd (omega (arith, f))
index_loop-Indexed (suc fuel) size seed i x [] m f short ch =
    rw ch.2 (returns (record { next = refl; info = refl; short = short }))
index_loop-Indexed (suc fuel) size seed i x (y ∷ xs) m f short ch =
    let set : Store = record m {
      idx = λ a. if a == m.info x then index_of size seed i else m.idx a;
    } in
    let live : (y == 0) ≡ false = ground (arith, ch.2.1) in
    let small : (a : ℕ) → set.idx a < 2 ^ 16 = λ a. elim (Bool-cases (a == m.info x)) [
      | inl e ↦ rw e (index_of-short size seed i)
      | inr e ↦ rw e (short a)
    ] in
    rw (ch.2.0, live)
      (mono
        (index_loop-Indexed fuel size seed (u32 (i + 1)) y xs set (omega (arith, f)) small
          (refl, ch.2.1, Chained-same_next m set (m.next y) xs (λ z. refl) ch.2.2))
        λ m' h. record { next = h.next; info = h.info; short = h.short })

sort_by_idx-IsListed :
    (fuel base n : ℕ) (m : Store)
    → Chained m base (base ∷ down base n)
    → n + 1 < fuel
    → n + 1 < 2 ^ 30
    → ((a : ℕ) → m.idx a < 2 ^ 16)
    → Returns (IsListed base n) (sort_by_idx fuel base m)
unfolding sort_by_idx
sort_by_idx-IsListed fuel base n m ch f small short =
    bind
      (core_list_mergesort-by_idx fuel base m (items_of m) base (down base n) ch
        (block-Distinct base n) (omega (arith, length-down base n, f))
        (omega (arith, length-down base n, small)) short)
      λ out h. returns (record {
        order = h.sorted;
        perm = h.perm;
        in_order =
            subst (λ (i : ℕ → ℕ). Sorted (λ x. signed (out.2.idx (i x))) h.sorted) (sym h.info_kept)
              (subst (λ (d : ℕ → ℕ). Sorted (λ x. signed (d (m.info x))) h.sorted) (sym h.inv.idx)
                h.in_order);
        chain = Chained-same_next out.1 (put_items out.2 out.1) out.0 h.sorted (λ z. refl) h.chain;
      })

head_item-Filled :
    (base data_base : ℕ) (m : Store)
    → base ≢ 0
    → ((a : ℕ) → m.idx a < 2 ^ 16)
    → Filled base data_base 0 (record {
      item = 0;
      memblock = base + 8;
      datablock = data_base + 4;
      store = head_item base data_base m;
    })
unfolding copy_info
head_item-Filled base data_base m live short = record {
  memblock = omega arith;
  datablock = omega arith;
  chain = (refl, live, ground arith);
  short = λ a. ground (arith, short a);
}

Indexed-IsListed :
    (fuel base n : ℕ) (m m' : Store)
    → Chained m base (base ∷ down base n)
    → n + 1 < fuel
    → n + 1 < 2 ^ 30
    → Indexed m m'
    → Returns (IsListed base n) (sort_by_idx fuel base m')
Indexed-IsListed fuel base n m m' ch f small h =
    sort_by_idx-IsListed fuel base n m'
      (Chained-same_next m m' base (base ∷ down base n) (λ z. ap (λ (g : ℕ → ℕ). g z) h.next) ch) f
      small h.short

finish_block :
    (fuel size seed base data_base n : ℕ) (at : Inserted)
    → Filled base data_base (suc n) at
    → n + 2 < fuel
    → n + 2 < 2 ^ 30
    → Returns (IsListed base (suc n)) (
        if at.store.next base == 0
        then none
        else index_loop fuel size seed 1 (at.store.next base) at.store >>= sort_by_idx fuel base)
finish_block fuel size seed base data_base n at f enough small =
    let ch = f.chain in
    let live : (at.store.next base == 0) ≡ false = rw ch.2.0 (ground arith) in
    let finder = at.store.next base in
    rw live (
      bind
        (index_loop-Indexed fuel size seed 1 finder (down base n) at.store
          (omega (arith, length-down base n, enough)) f.short
          (
            refl,
            (λ z. ch.2.1 (sym ch.2.0 ∙ z)),
            subst (λ (z : ℕ). Chained at.store (at.store.next z) (down base n)) (sym ch.2.0) ch.2.2,
          ))
        (λ m' h.
          Indexed-IsListed fuel base (suc n) at.store m' ch (omega (arith, enough))
            (omega (arith, small)) h))

-- What the insertions leave, with addresses that do not wrap around.
abbrev filled_at : (size base seed : ℕ) → Store → Inserted
filled_at size base seed m = insert_loop size 0 seed base (base + 8 * size) (base + 12 * size) (
    core_list_insert_new base (record { data16 = 0xffff; idx = 0x7fff }) (base + 8)
      (base + 8 * size + 4) (base + 8 * size) (base + 12 * size)
      (head_item base (base + 8 * size) m))

filled_at-Filled :
    (size base seed : ℕ) (m : Store)
    → base ≢ 0
    → 3 ≤ size
    → base + 12 * size < 2 ^ 31
    → ((a : ℕ) → m.idx a < 2 ^ 16)
    → Filled base (base + 8 * size) (size - 2) (filled_at size base seed m)
filled_at-Filled size base seed m live large low short =
    let info : ListData = record { data16 = 0xffff; idx = 0x7fff } in
    elim (insert_new-Filled base size live low 0 info _ (omega arith) (omega (arith, large))
      (head_item-Filled base (base + 8 * size) m live short)) [
        | inl h ↦ absurd (omega (arith, h.1, large))
        | inr h ↦
            insert_loop-Filled base size live low size 0 seed 1 _ (omega (arith, large))
              (omega arith) h.0
      ]

-- For a block of at least 100 bytes, not at 0 and below 2 ^ 31, in a memory whose indices are below
-- 2 ^ 16, and fuel of at least a twentieth of the block, `core_list_init` returns. From the result on,
-- the store holds a head for each 20 bytes but three: they lie 8 bytes apart from the start of the
-- block on, and are in the signed order of their indices.
pub core_list_init-IsListed :
    (fuel blksize memblock seed : ℕ) (m : Store)
    → memblock ≢ 0
    → 100 ≤ blksize
    → memblock + blksize < 2 ^ 31
    → blksize / 20 ≤ fuel
    → ((a : ℕ) → m.idx a < 2 ^ 16)
    → Returns (IsListed memblock (blksize / 20 - 4)) (core_list_init fuel blksize memblock seed m)
unfolding core_list_init
core_list_init-IsListed fuel blksize memblock seed m live large low enough short =
    let size = blksize / 20 - 2 in
    let no_wrap : (blksize / 20 + 2 ^ 32 - 2) % 2 ^ 32 ≡ size = omega (arith, large, low) in
    let heads : (memblock + size * 8) % 2 ^ 32 ≡ memblock + 8 * size = omega (arith, low) in
    let datas : (memblock + 8 * size + size * 4) % 2 ^ 32 ≡ memblock + 12 * size =
      omega (arith, low) in
    let head : (memblock + 8) % 2 ^ 32 ≡ memblock + 8 = omega (arith, low) in
    let item : (memblock + 8 * size + 4) % 2 ^ 32 ≡ memblock + 8 * size + 4 =
      omega (arith, low, large) in
    let some_left : size - 2 ≡ suc (blksize / 20 - 5) = omega (arith, large) in
    let count : blksize / 20 - 4 ≡ suc (blksize / 20 - 5) = omega (arith, large) in
    rw (no_wrap, heads, datas, head, item, count)
      (finish_block fuel size seed memblock (memblock + 8 * size) (blksize / 20 - 5) _
        (subst (λ (k : ℕ). Filled memblock (memblock + 8 * size) k (filled_at size memblock seed m))
          some_left
          (filled_at-Filled size memblock seed m live (omega (arith, large)) (omega (arith, low))
            short))
        (omega (arith, large, enough)) (omega (arith, large, low)))
