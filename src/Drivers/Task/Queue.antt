-- ===== src/Drivers/Task/Queue.antt =====
-- The queue that the links of the tasks make, from a head on.
use mlonmcu_sw.Base.{
  ℕ, ◌≡◌, ◌≢◌, refl, arith, List, [], ◌∷◌, ◌++◌, All, Bool-cases, inl, inr, ◌==◌, false, sym, subst,
}
use mlonmcu_sw.Drivers.Task.{Task, Tasks, put_task}

abbrev pub Linked : Tasks → ℕ → List ℕ → Type 0
Linked m p [] = p ≡ 0
Linked m p (x ∷ xs) = (p ≡ x) × (x ≢ 0) × Linked m (m x).next xs

-- The last task of a queue, or NULL.
abbrev pub last_of : List ℕ → ℕ
last_of [] = 0
last_of (x ∷ []) = x
last_of (x ∷ y ∷ xs) = last_of (y ∷ xs)

abbrev pub Distinct : List ℕ → Type 0
Distinct [] = Unit {0}
Distinct (x ∷ xs) = All (λ y. x ≢ y) xs × Distinct xs

-- The queue of a head and a tail.
pub record Queued (m : Tasks) (head tail : ℕ) (xs : List ℕ) : Type 0 where
  pub linked : Linked m head xs
  pub at_end : tail ≡ last_of xs
  pub distinct : Distinct xs

-- Tasks with the same links make the same queue.
pub Linked-same :
    (m m' : Tasks) (p : ℕ) (xs : List ℕ)
    → All (λ x. (m' x).next ≡ (m x).next) xs
    → Linked m p xs
    → Linked m' p xs
Linked-same m m' p [] same h = h
Linked-same m m' p (x ∷ xs) same (at, live, h) =
    (at, live, rw (same.0) (Linked-same m m' (m x).next xs same.1 h))

-- A write to a task outside the queue.
pub Linked-put_other :
    (m : Tasks) (x : ℕ) (t : Task) (p : ℕ) (xs : List ℕ)
    → All (λ y. x ≢ y) xs
    → Linked m p xs
    → Linked (put_task x t m) p xs
Linked-put_other m x t p xs other h = Linked-same m (put_task x t m) p xs (same xs other) h
  where
    same : (ys : List ℕ) → All (λ y. x ≢ y) ys → All (λ y. (put_task x t m y).next ≡ (m y).next) ys
    same [] o = tt
    same (y ∷ ys) o = (ground (arith, o.0), same ys o.1)

-- A write to any task that keeps its link.
pub Linked-put_kept :
    (m : Tasks) (x : ℕ) (t : Task) (p : ℕ) (xs : List ℕ)
    → t.next ≡ (m x).next
    → Linked m p xs
    → Linked (put_task x t m) p xs
Linked-put_kept m x t p xs e h = Linked-same m (put_task x t m) p xs (same xs) h
  where
    same : (ys : List ℕ) → All (λ y. (put_task x t m y).next ≡ (m y).next) ys
    same [] = tt
    same (y ∷ ys) = (
      elim (Bool-cases (y == x)) [
        | inl q ↦ let q' : y ≡ x = ground (arith, q) in rw (q, q') e
        | inr q ↦ rw q refl
      ],
      same ys,
    )

last-other : (x y : ℕ) (ys : List ℕ) → All (λ z. x ≢ z) (y ∷ ys) → x ≢ last_of (y ∷ ys)
last-other x y [] o = o.0
last-other x y (z ∷ ys) o = last-other x z ys o.1

-- A task with no successor is linked behind the last one.
pub Linked-append :
    (m : Tasks) (x : ℕ) (l : Task) (p y : ℕ) (xs : List ℕ)
    → x ≢ 0
    → (m x).next ≡ 0
    → l.next ≡ x
    → All (λ z. x ≢ z) (y ∷ xs)
    → Distinct (y ∷ xs)
    → Linked m p (y ∷ xs)
    → Linked (put_task (last_of (y ∷ xs)) l m) p (y ∷ xs ++ x ∷ [])
Linked-append m x l p y [] live e f other d (at, alive, h) =
    let apart : (x == y) ≡ false = ground (arith, other.0) in
    let link : (put_task y l m y).next ≡ x = ground (arith, f) in
    let end : (put_task y l m x).next ≡ 0 = rw apart e in (at, alive, (link, live, end))
Linked-append m x l p y (z ∷ xs) live e f other d (at, alive, h) =
    let q = last_of (z ∷ xs) in
    let kept : (put_task q l m y).next ≡ (m y).next =
      let apart : (y == q) ≡ false = ground (arith, last-other y z xs d.0) in rw apart refl in
    (at, alive, rw kept (Linked-append m x l (m y).next z xs live e f other.1 d.1 h))

last-append : (xs : List ℕ) (x : ℕ) → last_of (xs ++ x ∷ []) ≡ x
last-append [] x = refl
last-append (y ∷ []) x = refl
last-append (y ∷ z ∷ xs) x = last-append (z ∷ xs) x

Distinct-append :
    (xs : List ℕ) (x : ℕ) → Distinct xs → All (λ z. x ≢ z) xs → Distinct (xs ++ x ∷ [])
Distinct-append [] x d o = (tt, tt)
Distinct-append (y ∷ xs) x d o = (apart xs d.0, Distinct-append xs x d.1 o.1)
  where
    apart : (zs : List ℕ) → All (λ z. y ≢ z) zs → All (λ z. y ≢ z) (zs ++ x ∷ [])
    apart [] h = ((λ e. o.0 (sym e)), tt)
    apart (z ∷ zs) h = (h.0, apart zs h.1)

-- A task with no successor goes to the end of a queue that is not empty.
pub Queued-append :
    (m : Tasks) (x : ℕ) (l : Task) (head tail y : ℕ) (xs : List ℕ)
    → Queued m head tail (y ∷ xs)
    → x ≢ 0
    → (m x).next ≡ 0
    → l.next ≡ x
    → All (λ z. x ≢ z) (y ∷ xs)
    → Queued (put_task tail l m) head x (y ∷ xs ++ x ∷ [])
Queued-append m x l head tail y xs q live e f other = record {
  linked =
      subst (λ u. Linked (put_task u l m) head (y ∷ xs ++ x ∷ [])) (sym q.at_end)
        (Linked-append m x l head y xs live e f other q.distinct q.linked);
  at_end = sym (last-append (y ∷ xs) x);
  distinct = Distinct-append (y ∷ xs) x q.distinct other;
}

-- A queue whose tasks keep their links.
pub Queued-put_kept :
    (m : Tasks) (x : ℕ) (t : Task) (head tail : ℕ) (xs : List ℕ)
    → t.next ≡ (m x).next
    → Queued m head tail xs
    → Queued (put_task x t m) head tail xs
Queued-put_kept m x t head tail xs e q = record {
  linked = Linked-put_kept m x t head xs e q.linked;
  at_end = q.at_end;
  distinct = q.distinct;
}

pub Queued-put_other :
    (m : Tasks) (x : ℕ) (t : Task) (head tail : ℕ) (xs : List ℕ)
    → All (λ y. x ≢ y) xs
    → Queued m head tail xs
    → Queued (put_task x t m) head tail xs
Queued-put_other m x t head tail xs o q = record {
  linked = Linked-put_other m x t head xs o q.linked;
  at_end = q.at_end;
  distinct = q.distinct;
}

-- A memory with the same links.
pub Queued-same :
    (m m' : Tasks) (head tail : ℕ) (xs : List ℕ)
    → ((x : ℕ) → (m' x).next ≡ (m x).next)
    → Queued m head tail xs
    → Queued m' head tail xs
Queued-same m m' head tail xs same q = record {
  linked = Linked-same m m' head xs (everywhere xs) q.linked;
  at_end = q.at_end;
  distinct = q.distinct;
}
  where
    everywhere : (ys : List ℕ) → All (λ y. (m' y).next ≡ (m y).next) ys
    everywhere [] = tt
    everywhere (y ∷ ys) = (same y, everywhere ys)
