-- ===== src/Malloc/Alloc.antt =====
-- `__malloc` is first fit on the list of chunks.
use mlonmcu_sw.Base.{ℕ, ◌+◌, ◌-◌, ◌^◌, ◌≤◌, ◌<◌, ◌≡◌, refl, arith, ◌∙◌, ap, subst, true, false}
use mlonmcu_sw.Base.{List, [], ◌∷◌, ◌++◌, ltb, sub32, u32, ◌==◌, All, length, Bool-cases, inl, inr}
use mlonmcu_sw.Base.{none, some, Option}
use mlonmcu_sw.Base.Partial.{Returns, returns, bind}
use mlonmcu_sw.Malloc.Heap.{null, Memory, Malloc, set_size, set_next, align_up}
use mlonmcu_sw.Malloc.Internal.{Place, take_chunk, malloc}
use mlonmcu_sw.Malloc.Chunks.{Chunk, chunk, IsFreeList, keep, alloc}
use mlonmcu_sw.Malloc.Chain.{Chain, Walked, Smaller, Fits, Halts, fit_loop-Walked, last_addr}
use mlonmcu_sw.Malloc.Links.{Chain-above, Chain-relink, IsFreeList-back, Chain-back, Same, snoc}

-- The result of `alloc`, with the passed chunks in front.
abbrev keep_all : List Chunk → Option (ℕ × List Chunk) → Option (ℕ × List Chunk)
keep_all [] o = o
keep_all (c ∷ front) o = keep c (keep_all front o)

alloc-append :
    (n : ℕ) (front back : List Chunk)
    → All (Smaller n) front
    → alloc n (front ++ back) ≡ keep_all front (alloc n back)
unfolding alloc
alloc-append n [] back h = refl
alloc-append n (c ∷ front) back h =
    let small : ltb c.size n ≡ true = ground arith in
    rw (small) (ap (keep c) (alloc-append n front back h.1))

keep_all-some :
    (front : List Chunk) (r : ℕ) (cs : List Chunk)
    → keep_all front (some (r, cs)) ≡ some (r, front ++ cs)
keep_all-some [] r cs = refl
keep_all-some (c ∷ front) r cs = rw (keep_all-some front r cs)

keep_all-none : (front : List Chunk) → keep_all front none ≡ none
keep_all-none [] = refl
keep_all-none (c ∷ front) = rw (keep_all-none front)

-- What a call gives: nothing where no chunk fits, else what first fit gives on the list, and a
-- memory that holds the list that first fit leaves.
pub data Allocated (n : ℕ) (a : Malloc) (cs : List Chunk) : ℕ × Malloc → Type 0 where
  refused : alloc n cs ≡ none → Allocated n a cs (null, a)
  granted :
      {r : ℕ} {a' : Malloc} (cs' : List Chunk)
      → alloc n cs ≡ some (r, cs')
      → Chain a'.memory a'.first_free cs'
      → Allocated n a cs (r, a')

module _ (a : Malloc) (n hi : ℕ) (top : hi < 2 ^ 31) where
  abbrev m : Memory
  m = a.memory

  -- The chunk at the place, and the list around it.
  module _ (front back : List Chunk) (c : Chunk) (small : All (Smaller n) front)
      (ch : Chain m a.first_free (front ++ c ∷ back)) (ok : IsFreeList 1 hi (front ++ c ∷ back))
      (fits : n ≤ c.size) where
    carved :
        (c.size == n) ≡ false
        → alloc n (front ++ c ∷ back)
          ≡ some (c.addr + c.size - n, front ++ chunk c.addr (c.size - n) ∷ back)
    carved ne =
        alloc-append n front (c ∷ back) small
        ∙ ap (keep_all front) here
        ∙ keep_all-some front (c.addr + c.size - n) (chunk c.addr (c.size - n) ∷ back)
      where
        here : alloc n (c ∷ back) ≡ some (c.addr + c.size - n, chunk c.addr (c.size - n) ∷ back)
        here = unfold alloc in ground arith

    whole : (c.size == n) ≡ true → alloc n (front ++ c ∷ back) ≡ some (c.addr, front ++ back)
    whole e =
        alloc-append n front (c ∷ back) small
        ∙ ap (keep_all front) here
        ∙ keep_all-some front c.addr back
      where
        here : alloc n (c ∷ back) ≡ some (c.addr, back)
        here = unfold alloc in ground arith

    holds : Chain m c.addr (c ∷ back)
    holds = Chain-back m a.first_free front c back ch

    inside : (c.addr + c.size ≤ hi) × (1 ≤ c.addr)
    inside = let (lo, le, ok') = IsFreeList-back hi 1 front (c ∷ back) ok in (ok'.4, omega arith)

    -- The list behind the chunk lies above it.
    above :
        (m' : Memory) (x : ℕ)
        → ((y : ℕ) → x ≤ y → Same m m' y)
        → x ≤ c.addr + c.size + 1
        → Chain m' (m.next c.addr) back
    above m' x same le =
        let (lo, _, ok') = IsFreeList-back hi 1 front (c ∷ back) ok in
        Chain-above m m' hi x same (m.next c.addr) (c.addr + c.size + 1) back le holds.3 ok'.5

    carve :
        (prev : ℕ)
        → (c.size == n) ≡ false
        → Allocated n a (front ++ c ∷ back) (take_chunk a n (record { prev = prev; pt = c.addr }))
    carve prev ne = rw value (
        granted (front ++ chunk c.addr (c.size - n) ∷ back) (carved ne) (
          Chain-relink m m' hi c (c.size - n) back back (λ y lt. (ground arith, refl))
            (ground arith) (above m' (c.addr + 1) (λ y gt. (ground arith, refl)) (omega arith))
            a.first_free 1 front ch ok))
      where
        m' : Memory
        m' = set_size c.addr (c.size - n) m

        left : sub32 c.size n ≡ c.size - n
        left = omega (arith, inside.0)

        result : sub32 (u32 (c.addr + c.size)) n ≡ c.addr + c.size - n
        result = omega (arith, inside.0)

        value :
            take_chunk a n (record { prev = prev; pt = c.addr })
            ≡ (c.addr + c.size - n, record a { memory = m' })
        value =
            let live : (c.addr == null) ≡ false = ground (arith, inside.1) in
            unfold take_chunk in rw (live, holds.2, ne, left, result)

    unlink-front :
        (prev : ℕ)
        → (c.size == n) ≡ true
        → (front' : List Chunk) → front ≡ front'
        → prev ≡ last_addr null front'
        → Allocated n a (front ++ c ∷ back) (take_chunk a n (record { prev = prev; pt = c.addr }))
    unlink-front prev e [] split at =
        let live : (c.addr == null) ≡ false = ground (arith, inside.1) in
        let value : take_chunk a n (record { prev = prev; pt = c.addr })
            ≡ (c.addr, record a { first_free = m.next c.addr }) =
          unfold take_chunk in rw (live, holds.2, e, at) in
        rw value (granted (front ++ back) (whole e) (rw split holds.3))
    unlink-front prev e (d ∷ front') split at =
        let s = snoc null d front' in
        let l = s.last in
        let m' = set_next l.addr (m.next c.addr) m in
        let cut : (t : List Chunk) → front ++ t ≡ s.init ++ l ∷ t =
          λ t. ap (λ u. u ++ t) split ∙ s.splits t in
        let ch' : Chain m a.first_free (s.init ++ l ∷ c ∷ back) =
          subst (λ t. Chain m a.first_free t) (cut (c ∷ back)) ch in
        let ok' : IsFreeList 1 hi (s.init ++ l ∷ c ∷ back) =
          subst (λ t. IsFreeList 1 hi t) (cut (c ∷ back)) ok in
        let (lo, le, okl) = IsFreeList-back hi 1 s.init (l ∷ c ∷ back) ok' in
        let live : (c.addr == null) ≡ false = ground (arith, inside.1) in
        let some_prev : (l.addr == null) ≡ false = ground arith in
        let value : take_chunk a n (record { prev = prev; pt = c.addr })
            ≡ (c.addr, record a { memory = m' }) =
          unfold take_chunk in rw (live, holds.2, e, at, s.is_last, some_prev) in
        let behind : Chain m' (m'.next l.addr) back =
          let written : m'.next l.addr ≡ m.next c.addr = ground arith in
          rw written
            (above m' (l.addr + 1) (λ y gt. (refl, ground arith)) (omega (arith, okl.5))) in
        let chain : Chain m' a.first_free (front ++ back) = rw (cut back) (
          Chain-relink m m' hi l l.size (c ∷ back) back (λ y lt. (refl, ground arith))
            (Chain-back m a.first_free s.init l (c ∷ back) ch').2 behind a.first_free 1 s.init ch'
            ok') in
        rw value (granted (front ++ back) (whole e) chain)

    take_chunk-Allocated :
        (prev : ℕ)
        → prev ≡ last_addr null front
        → Allocated n a (front ++ c ∷ back) (take_chunk a n (record { prev = prev; pt = c.addr }))
    take_chunk-Allocated prev at = elim (Bool-cases (c.size == n)) [
      | inl e ↦ unlink-front prev e front refl at
      | inr ne ↦ carve prev ne
    ]

  placed :
      (front back : List Chunk) (prev pt : ℕ)
      → Chain m a.first_free (front ++ back)
      → IsFreeList 1 hi (front ++ back)
      → All (Smaller n) front
      → Halts (Fits n) back
      → Chain m pt back
      → prev ≡ last_addr null front
      → Allocated n a (front ++ back) (take_chunk a n (record { prev = prev; pt = pt }))
  placed front [] prev pt ch ok small stays at behind =
      let empty : alloc n [] ≡ none = unfold alloc in refl in
      let none_left : alloc n (front ++ []) ≡ none =
        alloc-append n front [] small ∙ ap (keep_all front) empty ∙ keep_all-none front in
      unfold take_chunk in rw at (refused none_left)
  placed front (c ∷ back) prev pt ch ok small fits at behind =
      rw (at.0) (take_chunk-Allocated front back c small ch ok fits prev behind)

  Walked-Allocated :
      (cs : List Chunk) (place : Place)
      → Chain m a.first_free cs
      → IsFreeList 1 hi cs
      → Walked (Smaller n) (Halts (Fits n)) m null cs place
      → Allocated n a cs (take_chunk a n place)
  Walked-Allocated cs place ch ok w = rw w.splits (
      placed w.front w.back place.prev place.pt (rw w.splits at ch) (rw w.splits at ok) w.passed
        w.stays w.chain w.behind)

-- `__malloc` returns on a list that is not longer than the fuel, with what first fit gives for
-- the aligned size.
pub malloc-Allocated :
    (fuel : ℕ) (a : Malloc) (size hi : ℕ) (cs : List Chunk)
    → Chain a.memory a.first_free cs
    → IsFreeList 1 hi cs
    → hi < 2 ^ 31
    → align_up size < 2 ^ 31
    → length cs < fuel
    → Returns (Allocated (align_up size) a cs) (malloc fuel a size)
malloc-Allocated fuel a size hi cs ch ok top small f =
    unfold malloc in
    bind (fit_loop-Walked a.memory (align_up size) hi small top fuel null a.first_free 1 cs ch ok f)
      λ place w. returns (Walked-Allocated a (align_up size) hi top cs place ch ok w)
