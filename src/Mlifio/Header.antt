-- ===== src/Mlifio/Header.antt =====
-- The header that `mlifio_to_file` writes, as `mlifio_from_file` reads it.
use mlonmcu_sw.Base.{
  ℕ, suc, ◌+◌, ◌-◌, ◌/◌, ◌^◌, ◌≡◌, ◌≤◌, ◌<◌, refl, arith, ap, ◌∙◌, true, false, some, List, [], ◌∷◌,
  ◌++◌, All, length, length-append, length-replicate, take, drop, replicate, ◌==◌, ltb, leb,
}
use mathlib.Core.List.{append_assoc}
use mlonmcu_sw.Mlifio.Text.{
  codes, digits, print_size, IsDigit, All-digits, atoi-digits, length-digits,
}
use mlonmcu_sw.Mlifio.{
  DataOrder, c_order, fortran_order, DataConfig, letter, dsize, print_shape, back_two, pad,
  described, closed, header, magic, order_text,
}
use mlonmcu_sw.Mlifio.Read.{read_digits, read_count}

pub drop-append : (xs ys : List ℕ) (n : ℕ) → drop (length xs + n) (xs ++ ys) ≡ drop n ys
drop-append [] ys n = let e : 0 + n ≡ n = omega arith in rw e refl
drop-append (x ∷ xs) ys n =
    let e : suc (length xs) + n ≡ suc (length xs + n) = omega arith in rw e (drop-append xs ys n)

back_two-append : (xs ys : List ℕ) → 2 ≤ length ys → back_two (xs ++ ys) ≡ xs ++ back_two ys
back_two-append [] ys h = refl
back_two-append (x ∷ xs) ys h =
    let e : suc (length (xs ++ ys)) - 2 ≡ suc (length (xs ++ ys) - 2) =
      omega (arith, length-append xs ys) in
    rw e (ap (λ l. x ∷ l) (back_two-append xs ys h))

back_two-comma :
    (s : List ℕ) → 1 ≤ length s → back_two (b',' ∷ b' ' ∷ s) ≡ b',' ∷ take (length s - 1) (b' ' ∷ s)
back_two-comma s h =
    let e : suc (suc (length s)) - 2 ≡ suc (length s - 1) = omega (arith, h) in rw e refl

le-length-append : (xs ys : List ℕ) → 2 ≤ length ys → 2 ≤ length (xs ++ ys)
le-length-append xs ys h = omega (arith, length-append xs ys)

regroup :
    (a b c d e f g h : List ℕ)
    → (((a ++ (b ++ (c ++ (d ++ e)))) ++ f) ++ g) ++ h
      ≡ a ++ (b ++ (c ++ (d ++ ((e ++ (f ++ g)) ++ h))))
regroup a b c d e f g h = simp append_assoc

-- Digits before a comma.
read_digits-append :
    (ds s rest : List ℕ)
    → All IsDigit ds
    → read_digits s ≡ some ([], rest)
    → read_digits (ds ++ s) ≡ some (ds, rest)
unfolding read_digits
read_digits-append [] s rest h e = e
read_digits-append (d ∷ ds) s rest h e =
    let a : (d == b',') ≡ false = ground (arith, h.0) in
    let b : leb b'0' d ≡ true = ground (arith, h.0) in
    let c : leb d b'9' ≡ true = ground (arith, h.0) in
    rw (read_digits-append ds s rest h.1 e, a, b, c) refl

pub read_count-print :
    (n : ℕ) (s rest : List ℕ)
    → n < 10 ^ 9
    → read_digits s ≡ some ([], rest)
    → read_count (print_size n ++ s) ≡ some (n, drop 1 rest)
unfolding read_count print_size
read_count-print n s rest h e =
    let short : ltb (length (digits 10 n)) 10 ≡ true = ground (arith, length-digits 10 8 n h) in
    rw
      (
        read_digits-append (digits 10 n) s rest (All-digits 10 n) e,
        short,
        atoi-digits 10 n (omega (arith, h)),
      )
      refl

module _ (c : DataConfig) where
  -- The header's part before the number of batches.
  abbrev pub front : DataOrder → List ℕ
  front o =
      magic
      ++ (codes "{'descr': '<"
          ++ (letter c.dtype
              ∷ (b'0' + dsize c.dtype)
              ∷ (codes "', 'fortran_order': " ++ (order_text o ++ codes ", 'shape': ("))))

  abbrev pub back : List ℕ
  back =
      back_two (codes ", " ++ print_shape c.shape)
      ++ (codes "), }" ++ (pad (length (closed c)) ++ b'\n' ∷ []))

  -- The number of batches, the inputs of one, and what follows.
  abbrev pub numbers : List ℕ → List ℕ
  numbers more = print_size c.nbatch ++ (codes ", " ++ (print_size (c.nsample / c.nbatch) ++ more))

  described_lem :
      (o : DataOrder)
      → c.order ≡ o
      → described c ≡ front o ++ numbers (codes ", " ++ print_shape c.shape)
  described_lem c_order e = ap (λ o. described (record c { order = o })) e
  described_lem fortran_order e = ap (λ o. described (record c { order = o })) e

  back_two-described :
      (o : DataOrder)
      → c.order ≡ o
      → back_two (described c) ≡ front o ++ numbers (back_two (codes ", " ++ print_shape c.shape))
  back_two-described o e =
      let y = codes ", " ++ print_shape c.shape in
      let k = print_size (c.nsample / c.nbatch) in
      let h : 2 ≤ length y = omega arith in
      let hk = le-length-append k y h in
      let hc = le-length-append (codes ", ") (k ++ y) hk in
      ap back_two (described_lem o e)
      ∙ back_two-append (front o) (numbers y)
          (le-length-append (print_size c.nbatch) (codes ", " ++ (k ++ y)) hc)
      ∙ ap (λ s. front o ++ s)
          (back_two-append (print_size c.nbatch) (codes ", " ++ (k ++ y)) hc
            ∙ ap (λ s. print_size c.nbatch ++ s)
                (back_two-append (codes ", ") (k ++ y) hk
                  ∙ ap (λ s. codes ", " ++ s) (back_two-append k y h)))

  pub header_lem :
      (o : DataOrder)
      → c.order ≡ o
      → (more : List ℕ) → header c ++ more ≡ front o ++ numbers (back ++ more)
  unfolding header
  header_lem o e more =
      let tail = pad (length (closed c)) ++ b'\n' ∷ [] in
      ap (λ s. ((s ++ codes "), }") ++ tail) ++ more) (back_two-described o e)
      ∙ regroup (front o) (print_size c.nbatch) (codes ", ") (print_size (c.nsample / c.nbatch))
          (back_two (codes ", " ++ print_shape c.shape)) (codes "), }") tail more

  pub length-header : length (closed c) < 127 → length (header c) ≡ 128
  unfolding header
  length-header fits =
      let short : ltb (length (closed c)) 127 ≡ true = ground (arith, fits) in
      let spaces : List ℕ = replicate (127 - length (closed c)) b' ' in
      let tail : List ℕ = spaces ++ b'\n' ∷ [] in
      rw short (
        omega (
          arith,
          length-append (closed c) tail,
          length-append spaces (b'\n' ∷ []),
          length-replicate {A = ℕ} (127 - length (closed c)) b' ',
        ))

  -- A comma or the closing bracket ends the number of inputs.
  pub read_digits-back :
      (more : List ℕ) → (rest : List ℕ) × (read_digits (back ++ more) ≡ some ([], rest))
  unfolding read_digits
  read_digits-back more = ends c.shape
    where
      ends :
          (shape : List ℕ)
          → (rest : List ℕ) × (read_digits (
                (back_two (codes ", " ++ print_shape shape)
                  ++ (codes "), }" ++ (pad (length (closed c)) ++ b'\n' ∷ [])))
                ++ more)
              ≡ some ([], rest))
      ends [] = (_, refl)
      ends (n ∷ shape) =
          let s = print_size n ++ codes ", " ++ print_shape shape in
          let some_left : 1 ≤ length s = omega (
            arith,
            length-append (print_size n ++ codes ", ") (print_shape shape),
            length-append (print_size n) (codes ", "),
          ) in
          (
            (take (length s - 1) (b' ' ∷ s)
                  ++ (codes "), }" ++ (pad (length (closed c)) ++ b'\n' ∷ [])))
                ++ more,
            rw (back_two-comma s some_left) refl,
          )

pub read_digits-comma : (s : List ℕ) → read_digits (b',' ∷ s) ≡ some ([], s)
unfolding read_digits
read_digits-comma s = refl

pub read_count-comma : (s : List ℕ) → read_count (b',' ∷ s) ≡ some (0, drop 1 s)
unfolding read_count
read_count-comma s = refl
