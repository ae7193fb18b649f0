-- ===== src/Malloc/Chain.antt =====
-- The list of chunks that the headers in the memory hold, and the walks along it.
use mlonmcu_sw.Base.{ℕ, zero, suc, ◌+◌, ◌%◌, ◌^◌, ◌≤◌, ◌<◌, ◌≡◌, ◌≢◌, refl, arith, ap, false}
use mlonmcu_sw.Base.{List, [], ◌∷◌, ◌++◌, ltb, slt32, ◌==◌, All, length, Bool-cases, inl, inr}
use mlonmcu_sw.Base.{ltb→lt}
use mlonmcu_sw.Base.Partial.{Returns, returns, mono}
use mlonmcu_sw.Malloc.Heap.{null, Memory}
use mlonmcu_sw.Malloc.Internal.{Place, fit_loop, before_loop}
use mlonmcu_sw.Malloc.Chunks.{Chunk, IsFreeList}

abbrev pub Chain : Memory → ℕ → List Chunk → Type 0
Chain m p [] = p ≡ null
Chain m p (c ∷ cs) =
    (p ≡ c.addr) × (c.addr ≢ null) × (m.size c.addr ≡ c.size) × Chain m (m.next c.addr) cs

-- The address of the last chunk of a walk that began behind `prev`.
abbrev pub last_addr : ℕ → List Chunk → ℕ
last_addr prev [] = prev
last_addr prev (c ∷ cs) = last_addr c.addr cs

-- A walk passed the chunks `front`, each with the property `Passed`, and stands before `back`.
pub record Walked (Passed : Chunk → Type 0) (Stays : List Chunk → Type 0) (m : Memory) (prev : ℕ)
    (cs : List Chunk) (place : Place) : Type 0 where
  pub front : List Chunk
  pub back : List Chunk
  pub splits : cs ≡ front ++ back
  pub chain : Chain m place.pt back
  pub behind : place.prev ≡ last_addr prev front
  pub passed : All Passed front
  pub stays : Stays back

-- The list ends, or its first chunk has not the property.
abbrev pub Halts : (Chunk → Type 0) → List Chunk → Type 0
Halts Stop [] = Unit {0}
Halts Stop (c ∷ cs) = Stop c

Walked-cons :
    {Passed : Chunk → Type 0} {Stays : List Chunk → Type 0} {m : Memory} (prev : ℕ) {c : Chunk}
    {cs : List Chunk} {place : Place}
    → Passed c
    → Walked Passed Stays m c.addr cs place
    → Walked Passed Stays m prev (c ∷ cs) place
Walked-cons prev {c} h w = record {
  front = c ∷ w.front;
  back = w.back;
  splits = ap (λ t. c ∷ t) w.splits;
  chain = w.chain;
  behind = w.behind;
  passed = (h, w.passed);
  stays = w.stays;
}

Walked-nil :
    {Passed : Chunk → Type 0} {Stays : List Chunk → Type 0} {m : Memory} (prev pt : ℕ)
    {cs : List Chunk}
    → Chain m pt cs
    → Stays cs
    → Walked Passed Stays m prev cs (record { prev = prev; pt = pt })
Walked-nil prev pt {cs} ch h = record {
  front = [];
  back = cs;
  splits = refl;
  chain = ch;
  behind = refl;
  passed = tt;
  stays = h;
}

-- Between numbers below 2 ^ 31 the signed order is that of ℕ.
pub slt32-ltb : (a b : ℕ) → a < 2 ^ 31 → b < 2 ^ 31 → slt32 a b ≡ ltb a b
slt32-ltb a b ha hb =
    let e : (a + 2 ^ 31) % 2 ^ 32 ≡ a + 2 ^ 31 = omega arith in
    let f : (b + 2 ^ 31) % 2 ^ 32 ≡ b + 2 ^ 31 = omega arith in rw (e, f) (ground arith)

abbrev pub Smaller : ℕ → Chunk → Type 0
Smaller n c = c.size < n

abbrev pub Fits : ℕ → Chunk → Type 0
Fits n c = n ≤ c.size

module _ (m : Memory) (n hi : ℕ) (hn : n < 2 ^ 31) (top : hi < 2 ^ 31) where
  pub fit_loop-Walked :
      (fuel prev pt lo : ℕ) (cs : List Chunk)
      → Chain m pt cs
      → IsFreeList lo hi cs
      → length cs < fuel
      → Returns (Walked (Smaller n) (Halts (Fits n)) m prev cs) (fit_loop fuel m n prev pt)
  unfolding fit_loop
  fit_loop-Walked zero prev pt lo cs ch ok f = absurd (omega arith)
  fit_loop-Walked (suc fuel) prev pt lo [] ch ok f = rw ch (returns (Walked-nil prev null refl tt))
  fit_loop-Walked (suc fuel) prev pt lo (c ∷ cs) (at, ne, e, ch) ok f =
      let live : (c.addr == null) ≡ false = ground arith in
      rw (at, live, e, slt32-ltb c.size n (omega arith) hn)
        (elim (Bool-cases (ltb c.size n)) [
          | inl small ↦ rw small (
              mono
                (fit_loop-Walked fuel c.addr (m.next c.addr) (c.addr + c.size + 1) cs ch ok.5
                  (omega arith))
                λ place w. Walked-cons prev (ltb→lt c.size n small) w)
          | inr fits ↦ rw fits (returns (Walked-nil prev c.addr (refl, ne, e, ch) (ground arith)))
        ])

abbrev pub Before : ℕ → Chunk → Type 0
Before a c = c.addr < a

abbrev pub From : ℕ → Chunk → Type 0
From a c = a ≤ c.addr

module _ (m : Memory) (a : ℕ) where
  pub before_loop-Walked :
      (fuel prev next : ℕ) (cs : List Chunk)
      → Chain m next cs
      → length cs < fuel
      → Returns (Walked (Before a) (Halts (From a)) m prev cs) (before_loop fuel m a prev next)
  unfolding before_loop
  before_loop-Walked zero prev next cs ch f = absurd (omega arith)
  before_loop-Walked (suc fuel) prev next [] ch f = rw ch (returns (Walked-nil prev null refl tt))
  before_loop-Walked (suc fuel) prev next (c ∷ cs) (at, ne, e, ch) f =
      let live : (c.addr == null) ≡ false = ground arith in
      rw (at, live)
        (elim (Bool-cases (ltb c.addr a)) [
          | inl small ↦ rw small (
              mono (before_loop-Walked fuel c.addr (m.next c.addr) cs ch (omega arith))
                λ place w. Walked-cons prev (ltb→lt c.addr a small) w)
          | inr here ↦ rw here (returns (Walked-nil prev c.addr (refl, ne, e, ch) (ground arith)))
        ])
