-- ===== src/Mlifio/Examples.antt =====
-- Runs of lib/ml_interface/v2/mlifio at concrete tensors.
use mlonmcu_sw.Base.{ℕ, ◌≡◌, refl, arith, some, none, List, [], ◌∷◌, ◌++◌}
use mlonmcu_sw.Mlifio.Text.{codes, print_size}
use mlonmcu_sw.Mlifio.{
  int16, c_order, fortran_order, DataConfig, header, closed, npy, bin, io_success, io_error,
  mlifio_to_file,
}
use mlonmcu_sw.Mlifio.Read.{zero_division, mlifio_from_file}
use mlonmcu_sw.Mlifio.RoundTrip.{from_file_fortran}

-- Two batches of three inputs of 2 × 1 numbers of 16 bits.
abbrev tensor : DataConfig
tensor = record {
  nbatch = 2;
  nsample = 6;
  shape = 2 ∷ 1 ∷ [];
  col = 0;
  dtype = int16;
  order = c_order;
}

abbrev batch : (n : ℕ) → List ℕ
batch n = n ∷ 2 ∷ 3 ∷ 4 ∷ 5 ∷ 6 ∷ 7 ∷ 8 ∷ 9 ∷ 10 ∷ 11 ∷ 12 ∷ []

abbrev memory : List ℕ
memory = 0 ∷ 0 ∷ 0 ∷ 0 ∷ 0 ∷ 0 ∷ 0 ∷ 0 ∷ 0 ∷ 0 ∷ 0 ∷ 0 ∷ 99 ∷ []

from_file_fortran_example :
    mlifio_from_file npy
      (some (header (record tensor { order = fortran_order }) ++ batch 1))
      (7 ∷ 8 ∷ 0 ∷ [])
      tensor
      memory
      0
    ≡ zero_division
from_file_fortran_example =
    from_file_fortran (record tensor { order = fortran_order }) tensor 7 8 (batch 1) memory 0 refl
      (omega arith) (omega arith)

abbrev number : DataConfig
number = record tensor { nbatch = 1; nsample = 1; shape = 1 ∷ [] }

header_text :
    closed number
    ≡ 0x93
      ∷ (codes "NUMPY"
          ++ (1
              ∷ 0
              ∷ 118
              ∷ 0
              ∷ codes "{'descr': '<i2', 'fortran_order': False, 'shape': (1, 1, 1), }"))
unfolding print_size
header_text = refl

-- A file of batches in binary form.
bin_file :
    mlifio_to_file bin (some (1 ∷ [])) (some number) (some (2 ∷ 3 ∷ 4 ∷ []))
    ≡ some (io_success, some (1 ∷ 2 ∷ 3 ∷ []))
unfolding mlifio_to_file
bin_file = refl

no_data : mlifio_to_file bin none (some number) none ≡ some (io_error, none)
unfolding mlifio_to_file
no_data = refl
