-- ===== src/Coremark/Matrix/Init/Layout.antt =====
-- `core_init_matrix` keeps the three matrices in the block.
use mlonmcu_sw.Base.{
  ℕ, ◌+◌, ◌*◌, ◌-◌, ◌%◌, ◌^◌, ◌≤◌, ◌<◌, ◌≡◌, inl, inr, refl, arith, ◌∙◌, List, length, get_or, ltb,
  true,
}
use mlonmcu_sw.Base.{
  u16, u32, sub32, Bool-cases, ◌==◌, length-set, get_or-set_self, get_or-set_ne, if◌then◌else◌,
}
use mlonmcu_sw.Base.Partial.{Returns, returns, bind}
use mlonmcu_sw.Base.Loop.{for_cells, for_cells-Returns}
use mlonmcu_sw.Coremark.Matrix.{put}
use mlonmcu_sw.Coremark.Matrix.Cells.{cell-lt, cell-plain}
use mlonmcu_sw.Coremark.Matrix.Init.{
  align_mem, remainder, Filling, init_at, MatParams, core_init_matrix,
}
use mlonmcu_sw.Coremark.Matrix.Init.Dimension.{dimension_loop-IsLast, root-lt}

-- The first `k` elements are below the bound.
pub record Bounded (bound k : ℕ) (p q : List ℕ) : Type 0 where
  pub same_length : length q ≡ length p
  pub below : (m : ℕ) → m < k → get_or q m 0 < bound

put-Bounded :
    (bound k v : ℕ) (p q : List ℕ)
    → Bounded bound k p q
    → k < length p
    → v < bound
    → Returns (Bounded bound (k + 1) p) (put q k v)
put-Bounded bound k v p q b h hv =
    let inside : ltb k (length q) ≡ true = ground (arith, b.same_length) in
    rw inside (
      returns record {
        same_length = length-set q k v ∙ b.same_length;
        below = λ m lt. elim (Bool-cases (m == k)) [
          | inl e ↦
              let e' : m ≡ k = ground (arith, e) in
              let here = get_or-set_self q k v 0 (omega (arith, b.same_length)) in
              rw e' (omega (arith, here))
          | inr ne ↦
              let other = get_or-set_ne q k m v 0 (λ e'. ground (arith, ne)) in
              omega (arith, other, b.below m (ground (arith, ne)))
        ];
      })

-- The matrices in a block of `blksize` bytes.
pub record Laid (blksize memblk : ℕ) (a b : List ℕ) (p : MatParams) : Type 0 where
  pub fits : 8 * (p.size * p.size) < blksize
  pub largest : blksize ≤ 8 * ((p.size + 1) * (p.size + 1))
  pub at_a : p.a_at ≡ memblk
  pub at_b : p.b_at ≡ p.a_at + 2 * (p.size * p.size)
  pub at_c : p.c_at ≡ p.b_at + 2 * (p.size * p.size)
  pub end_c : p.c_at + 4 * (p.size * p.size) < memblk + blksize
  pub values_a : Bounded 256 (p.size * p.size) a p.a
  pub values_b : Bounded (2 ^ 16) (p.size * p.size) b p.b

module _ (size : ℕ) (a b : List ℕ) (small : size * size < 2 ^ 32) (room_a : size * size ≤ length a)
    (room_b : size * size ≤ length b) where
  abbrev Filled : ℕ → Filling → Type 0
  Filled k f = Bounded 256 k a f.a × Bounded (2 ^ 16) k b f.b

  init_at-Filled :
      (f : Filling) → Filled 0 f → Returns (Filled (size * size)) (for_cells size (init_at size) f)
  unfolding init_at
  init_at-Filled f h = for_cells-Returns size (init_at size) Filled step f h
    where
      step :
          (i j : ℕ) (f : Filling)
          → i < size
          → j < size
          → Filled (i * size + j) f
          → Returns (Filled (i * size + j + 1)) (init_at size i j f)
      step i j f hi hj (ha, hb) =
          let lt = cell-lt size i j hi hj in
          let value = u16 (remainder (u32 (f.order * f.seed)) + f.order) in
          rw (cell-plain size i j small hi hj) (
            bind
              (put-Bounded (2 ^ 16) (i * size + j) value b f.b hb (omega (arith, lt)) (omega arith))
              λ b' hb'.
                bind
                  (put-Bounded 256 (i * size + j) (u16 (value + f.order) % 256) a f.a ha
                    (omega (arith, lt)) (omega arith))
                  λ a' ha'. returns (ha', hb'))

empty-Bounded : (bound : ℕ) (p : List ℕ) → Bounded bound 0 p p
empty-Bounded bound p = record { same_length = refl; below = λ m h. absurd (omega arith) }

align_mem-aligned : (x : ℕ) → 0 < x → x < 2 ^ 32 → x % 4 ≡ 0 → align_mem x ≡ x
align_mem-aligned x pos top word = omega (arith, pos, top, word)

module _ (blksize memblk seed : ℕ) (a b : List ℕ) (some_block : 0 < blksize)
    (small : blksize < 2 ^ 31) (live : 0 < memblk) (word : memblk % 4 ≡ 0)
    (top : memblk + blksize < 2 ^ 32) (room_a : blksize ≤ 8 * length a)
    (room_b : blksize ≤ 8 * length b) where
  -- On a block of 1 to 2 ^ 31 - 1 bytes, at a multiple of 4 other than 0 and below the end of the address space, and lists that hold at
  -- least an eighth of the block each, `core_init_matrix` returns whatever the seed. The dimension is the largest for which
  -- three matrices of 8 bytes for each place take less than the block; A, B and C lie in the block one behind the other;
  -- the elements of A are below 256 and those of B below 2 ^ 16.
  pub core_init_matrix-Laid :
      Returns (Laid blksize memblk a b) (core_init_matrix blksize memblk seed a b)
  unfolding core_init_matrix
  core_init_matrix-Laid =
      bind (dimension_loop-IsLast blksize small (blksize + 1) 0 (omega arith) (inl some_block))
        λ i (pos, fits, most).
          let n = i - 1 in
          let sq = n * n in
          let few : n < 2 ^ 14 = root-lt n (omega (arith, fits, small)) in
          let area : u32 sq ≡ sq = omega (arith, fits, small) in
          let size : sub32 i 1 ≡ n = omega (arith, pos, few) in
          let again : n + 1 ≡ i = omega (arith, pos) in
          let first : align_mem memblk ≡ memblk =
            align_mem-aligned memblk live (omega (arith, top)) word in
          let b_at = u32 (align_mem memblk + 2 * sq) in
          let second : b_at ≡ memblk + 2 * sq = omega (arith, first, fits, top) in
          let sum : u32 (b_at + 2 * sq) ≡ memblk + 4 * sq = omega (arith, second, fits, top) in
          let third : align_mem (u32 (b_at + 2 * sq)) ≡ u32 (b_at + 2 * sq) =
            align_mem-aligned (u32 (b_at + 2 * sq)) (omega (arith, sum, live))
              (omega (arith, sum, fits, top)) (omega (arith, sum, word)) in
          rw (size, area)
            (bind
              (init_at-Filled n a b (omega (arith, fits, small)) (omega (arith, fits, room_a))
                (omega (arith, fits, room_b))
                (record { seed = (if seed == 0 then 1 else seed); order = 1; a = a; b = b })
                (empty-Bounded 256 a, empty-Bounded (2 ^ 16) b))
              λ f (ha, hb). returns record {
                fits = fits;
                largest = rw again most;
                at_a = first;
                at_b = second ∙ omega (arith, first);
                at_c = third ∙ omega (arith, sum, second);
                end_c = omega (arith, third, sum, fits);
                values_a = ha;
                values_b = hb;
              })
