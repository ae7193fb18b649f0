-- ===== src/Mlifio/RoundTrip.antt =====
-- lib/ml_interface/v2/mlifio: what `mlifio_to_file` writes is what `mlifio_from_file` reads.
use mlonmcu_sw.Base.{
  ℕ, zero, suc, ◌+◌, ◌*◌, ◌/◌, ◌%◌, ◌^◌, ◌≡◌, ◌≢◌, ◌≤◌, ◌<◌, refl, arith, ap, sym, subst, ◌∙◌, true,
  false, Option, some, List, [], ◌∷◌, ◌++◌, length, take, drop, ◌==◌, ltb, u32,
}
use mlonmcu_sw.Base.Partial.{◌>>=◌}
use mlonmcu_sw.Mlifio.Text.{codes, print_size, print_size_one}
use mlonmcu_sw.Mlifio.{
  Datatype, int8, int16, int32, uint8, uint16, uint32, float, raw, c_order, fortran_order,
  DataConfig, letter, dsize, closed, header, input_size, batch_size, mlifio_to_file, npy,
}
use mlonmcu_sw.Mlifio.Read.{
  zero_division, read_count, datatype_of, from_npy, load, fread, header_offset, order_of,
  mlifio_from_file,
}
use mlonmcu_sw.Mlifio.Header.{
  drop-append, read_count-print, front, numbers, back, header_lem, length-header, read_digits-back,
  read_digits-comma, read_count-comma,
}

datatype_of-letter : (t : Datatype) → datatype_of (letter t ∷ (b'0' + dsize t) ∷ 0 ∷ []) ≡ t
unfolding datatype_of
datatype_of-letter int8 = refl
datatype_of-letter int16 = refl
datatype_of-letter int32 = refl
datatype_of-letter uint8 = refl
datatype_of-letter uint16 = refl
datatype_of-letter uint32 = refl
datatype_of-letter float = refl
datatype_of-letter raw = refl

-- A configuration whose header has room for its text and whose numbers the reader takes.
pub record IsWritable (c : DataConfig) : Type 0 where
  pub by_rows : c.order ≡ c_order
  pub batches : c.nbatch ≢ 0
  pub batch_digits : c.nbatch < 10 ^ 9
  pub input_digits : c.nsample / c.nbatch < 10 ^ 9
  pub fits : length (closed c) < 127
  pub word : c.nsample < 2 ^ 32

-- What a reader knows of the file behind a header.
abbrev pub known : (c reader : DataConfig) → DataConfig
known c reader = record reader {
  dtype = c.dtype;
  order = c_order;
  nbatch = c.nbatch;
  nsample = u32 (c.nsample / c.nbatch * c.nbatch);
}

-- The branch of an npy file, from what its pieces are read as.
module _ (file dtype : List ℕ) (reader : DataConfig) (bytes : List ℕ) (idx : ℕ) where
  from_npy_parts :
      (t : Datatype) (nb n : ℕ) (rest rest' : List ℕ)
      → header_offset (fread (drop 8 file) (0 ∷ 0 ∷ [])) ≡ 118
      → datatype_of (fread (take 2 (drop 12 (drop 2 (drop 8 file)))) dtype) ≡ t
      → order_of (drop 20 (drop 2 (drop 12 (drop 2 (drop 8 file))))) ≡ c_order
      → read_count (drop 16 (drop 1 (drop 20 (drop 2 (drop 12 (drop 2 (drop 8 file)))))))
        ≡ some (nb, rest)
      → read_count rest ≡ some (n, rest')
      → nb ≢ 0
      → 128 + idx * input_size t reader.shape < 2 ^ 31
      → from_npy file dtype reader bytes idx ≡ (
          let c = record reader {
            dtype = t;
            order = c_order;
            nbatch = nb;
            nsample = u32 (n * nb);
          } in
          load
            (batch_size (input_size t reader.shape) c)
            (drop (128 + idx * input_size t reader.shape) file)
            bytes
            c)
  unfolding from_npy
  from_npy_parts t nb n rest rest' e1 e2 e3 e4 e5 e6 room =
      let real : (nb == 0) ≡ false = ground (arith, e6) in
      let at : (118 + 10 + idx * input_size t reader.shape) % 2 ^ 32
          ≡ 128 + idx * input_size t reader.shape =
        omega (arith, room) in
      let inside : ltb (128 + idx * input_size t reader.shape) (2 ^ 31) ≡ true =
        ground (arith, room) in
      rw (e4, e5, real, e1, e2, e3, at, inside) refl

  -- With no batches the reader divides by zero.
  from_npy_zero :
      (n : ℕ) (rest rest' : List ℕ)
      → read_count (drop 16 (drop 1 (drop 20 (drop 2 (drop 12 (drop 2 (drop 8 file)))))))
        ≡ some (0, rest)
      → read_count rest ≡ some (n, rest')
      → from_npy file dtype reader bytes idx ≡ zero_division
  unfolding from_npy
  from_npy_zero n rest rest' e e' = rw (e, e') refl

pub from_npy-header :
    (c reader : DataConfig) (g0 g1 : ℕ) (stored bytes : List ℕ) (idx : ℕ)
    → IsWritable c
    → reader.shape ≡ c.shape
    → 128 + idx * input_size c.dtype c.shape < 2 ^ 31
    → from_npy (header c ++ stored) (g0 ∷ g1 ∷ 0 ∷ []) reader bytes idx
      ≡ load
          (batch_size (input_size c.dtype c.shape) (known c reader))
          (drop (idx * input_size c.dtype c.shape) stored)
          bytes
          (known c reader)
from_npy-header c reader g0 g1 stored bytes idx w same room =
    let size = input_size c.dtype c.shape in
    let (rest, ended) = read_digits-back c stored in
    let file = front c c_order ++ numbers c (back c ++ stored) in
    let size' : input_size c.dtype reader.shape ≡ size = ap (λ s. input_size c.dtype s) same in
    let loaded =
      from_npy_parts file (g0 ∷ g1 ∷ 0 ∷ []) reader bytes idx c.dtype c.nbatch
        (c.nsample / c.nbatch) (print_size (c.nsample / c.nbatch) ++ (back c ++ stored))
        (drop 1 rest) refl (datatype_of-letter c.dtype) refl
        (read_count-print c.nbatch
          (codes ", " ++ (print_size (c.nsample / c.nbatch) ++ (back c ++ stored)))
          (b' ' ∷ (print_size (c.nsample / c.nbatch) ++ (back c ++ stored))) w.batch_digits
          (read_digits-comma (b' ' ∷ (print_size (c.nsample / c.nbatch) ++ (back c ++ stored)))))
        (read_count-print (c.nsample / c.nbatch) (back c ++ stored) rest w.input_digits ended)
        w.batches (subst (λ (s : ℕ). 128 + idx * s < 2 ^ 31) (sym size') room) in
    let stored_at : drop (128 + idx * size) file ≡ drop (idx * size) stored =
      ap (λ f. drop (128 + idx * size) f) (sym (header_lem c c_order w.by_rows stored))
      ∙ ap (λ (n : ℕ). drop (n + idx * size) (header c ++ stored)) (sym (length-header c w.fits))
      ∙ drop-append (header c) stored (idx * size) in
    ap (λ f. from_npy f (g0 ∷ g1 ∷ 0 ∷ []) reader bytes idx) (header_lem c c_order w.by_rows stored)
    ∙ loaded
    ∙ ap
        (λ (s : ℕ).
          load (batch_size s (known c reader)) (drop (128 + idx * s) file) bytes (known c reader))
        size'
    ∙ ap (λ l. load (batch_size size (known c reader)) l bytes (known c reader)) stored_at

-- The batches that a program writes one after the other to one file.
pub write_all : DataConfig → List (List ℕ) → Option (List ℕ) → Option (Option (List ℕ))
write_all c [] file = some file
write_all c (b ∷ batches) file =
    mlifio_to_file npy file (some c) (some b) >>= λ (status, file'). write_all c batches file'

abbrev pub concat : List (List ℕ) → List ℕ
concat [] = []
concat (b ∷ bs) = b ++ concat bs

length-take_le : (n : ℕ) (s : List ℕ) → length (take n s) ≤ n
length-take_le zero s = omega arith
length-take_le (suc n) [] = omega arith
length-take_le (suc n) (x ∷ s) = omega (arith, length-take_le n s)

-- A file that was written in Fortran's order, with fewer than ten batches and a number of inputs of at most nine
-- digits for each, cannot be read as npy with a third byte of `dtype` that is 0, whatever the reader's configuration: the reader skips the only digit of
-- the number of batches, takes 0 for it and divides by it.
pub from_file_fortran :
    (c reader : DataConfig) (g0 g1 : ℕ) (stored bytes : List ℕ) (idx : ℕ)
    → c.order ≡ fortran_order
    → c.nbatch < 10
    → c.nsample / c.nbatch < 10 ^ 9
    → mlifio_from_file npy (some (header c ++ stored)) (g0 ∷ g1 ∷ 0 ∷ []) reader bytes idx
      ≡ zero_division
unfolding mlifio_from_file
from_file_fortran c reader g0 g1 stored bytes idx order one digits =
    let n = c.nsample / c.nbatch in
    let after = print_size n ++ (back c ++ stored) in
    let digit : print_size c.nbatch ≡ (b'0' + c.nbatch) ∷ [] = print_size_one c.nbatch one in
    let (rest, ended) = read_digits-back c stored in
    ap (λ f. from_npy f (g0 ∷ g1 ∷ 0 ∷ []) reader bytes idx)
      (header_lem c fortran_order order stored
        ∙ ap (λ (d : List ℕ). front c fortran_order ++ (d ++ (codes ", " ++ after))) digit)
    ∙ from_npy_zero (front c fortran_order ++ (((b'0' + c.nbatch) ∷ []) ++ (codes ", " ++ after)))
        (g0 ∷ g1 ∷ 0 ∷ []) reader bytes idx n after (drop 1 rest) (read_count-comma (b' ' ∷ after))
        (read_count-print n (back c ++ stored) rest digits ended)
