-- ===== src/Coremark/Links/Sort/Splits.antt =====
-- `core_list_mergesort`: the heads that are merged already, those of the run at `p`, and those from `q` on.
use mlonmcu_sw.Base.{ℕ, ◌≡◌, ◌≢◌, sym, List, [], ◌∷◌, ◌++◌, All}
use mlonmcu_sw.Coremark.Links.{Store}
use mlonmcu_sw.Coremark.Links.Chained.{Distinct}

abbrev pub Apart : List ℕ → List ℕ → Type 0
Apart xs ys = All (λ x. All (λ y. x ≢ y) ys) xs

pub record Split (done xs us : List ℕ) : Type 0 where
  pub merged : Distinct done
  pub run : Distinct xs
  pub later : Distinct us
  pub merged_run : Apart done xs
  pub merged_later : Apart done us
  pub run_later : Apart xs us

-- One element more behind the others.
All-snoc : (P : ℕ → Type 0) (front : List ℕ) (e : ℕ) → All P front → P e → All P (front ++ e ∷ [])
All-snoc P [] e h last = (last, tt)
All-snoc P (f ∷ front) e h last = (h.0, All-snoc P front e h.1 last)

All-append_left : (P : ℕ → Type 0) (xs ys : List ℕ) → All P (xs ++ ys) → All P xs
All-append_left P [] ys h = tt
All-append_left P (x ∷ xs) ys h = (h.0, All-append_left _ xs ys h.1)

All-append_right : (P : ℕ → Type 0) (xs ys : List ℕ) → All P (xs ++ ys) → All P ys
All-append_right P [] ys h = h
All-append_right P (x ∷ xs) ys h = All-append_right _ xs ys h.1

-- The first head of a list that others are apart from.
Apart-head : (done xs : List ℕ) (x : ℕ) → Apart done (x ∷ xs) → All (λ d. d ≢ x) done
Apart-head [] xs x h = tt
Apart-head (d ∷ done) xs x h = (h.0.0, Apart-head done xs x h.1)

pub Apart-tail : (done xs : List ℕ) (x : ℕ) → Apart done (x ∷ xs) → Apart done xs
Apart-tail [] xs x h = tt
Apart-tail (d ∷ done) xs x h = (h.0.1, Apart-tail done xs x h.1)

Apart-nil : (xs : List ℕ) → Apart xs []
Apart-nil [] = tt
Apart-nil (x ∷ xs) = (tt, Apart-nil xs)

Apart-left : (done xs us : List ℕ) → Apart done (xs ++ us) → Apart done xs
Apart-left [] xs us h = tt
Apart-left (d ∷ done) xs us h = (All-append_left _ xs us h.0, Apart-left done xs us h.1)

Apart-right : (done xs us : List ℕ) → Apart done (xs ++ us) → Apart done us
Apart-right [] xs us h = tt
Apart-right (d ∷ done) xs us h = (All-append_right _ xs us h.0, Apart-right done xs us h.1)

Distinct-snoc : (xs : List ℕ) (x : ℕ) → Distinct xs → All (λ y. y ≢ x) xs → Distinct (xs ++ x ∷ [])
Distinct-snoc [] x d h = (tt, tt)
Distinct-snoc (y ∷ xs) x d h = (All-snoc _ xs x d.0 h.0, Distinct-snoc xs x d.1 h.1)

-- A list of distinct heads in two parts.
Distinct-append : (xs us : List ℕ) → Distinct (xs ++ us) → Distinct xs × Distinct us × Apart xs us
Distinct-append [] us d = (tt, d, tt)
Distinct-append (x ∷ xs) us d =
    let (a, b, c) = Distinct-append xs us d.1 in
    ((All-append_left _ xs us d.0, a), b, (All-append_right _ xs us d.0, c))

pub take_p : (done xs us : List ℕ) (x : ℕ) → Split done (x ∷ xs) us → Split (done ++ x ∷ []) xs us
take_p done xs us x s = record {
  merged = Distinct-snoc done x s.merged (Apart-head done xs x s.merged_run);
  run = s.run.1;
  later = s.later;
  merged_run = All-snoc _ done x (Apart-tail done xs x s.merged_run) s.run.0;
  merged_later = All-snoc _ done x s.merged_later s.run_later.0;
  run_later = s.run_later.1;
}

Apart-from : (xs us : List ℕ) (u : ℕ) → Apart xs (u ∷ us) → All (λ x. u ≢ x) xs
Apart-from [] us u h = tt
Apart-from (x ∷ xs) us u h = ((λ e. h.0.0 (sym e)), Apart-from xs us u h.1)

pub take_q : (done xs us : List ℕ) (u : ℕ) → Split done xs (u ∷ us) → Split (done ++ u ∷ []) xs us
take_q done xs us u s = record {
  merged = Distinct-snoc done u s.merged (Apart-head done us u s.merged_later);
  run = s.run;
  later = s.later.1;
  merged_run = All-snoc _ done u s.merged_run (Apart-from xs us u s.run_later);
  merged_later = All-snoc _ done u (Apart-tail done us u s.merged_later) (s.later.0);
  run_later = Apart-tail xs us u s.run_later;
}

-- A new run at `p`.
pub next_run : (done xs us : List ℕ) → Split done [] (xs ++ us) → Split done xs us
next_run done xs us s =
    let (a, b, c) = Distinct-append xs us s.later in
    record {
      merged = s.merged;
      run = a;
      later = b;
      merged_run = Apart-left done xs us s.merged_later;
      merged_later = Apart-right done xs us s.merged_later;
      run_later = c;
    }

pub all_later : (xs : List ℕ) → Distinct xs → Split [] [] xs
all_later xs d = record {
  merged = tt;
  run = tt;
  later = d;
  merged_run = tt;
  merged_later = tt;
  run_later = tt;
}

-- The heads of a run, whose last link does not matter.
abbrev pub Linked : Store → ℕ → List ℕ → Type 0
Linked m p [] = Unit {0}
Linked m p (x ∷ xs) = (p ≡ x) × (x ≢ 0) × Linked m (m.next x) xs

abbrev pub last_of : List ℕ → ℕ
last_of [] = 0
last_of (x ∷ []) = x
last_of (x ∷ y ∷ xs) = last_of (y ∷ xs)

-- The merged list, from `list` to `tail`.
abbrev pub Merged : Store → (list tail : ℕ) → List ℕ → Type 0
Merged m list tail done = Linked m list done × (tail ≡ last_of done)
