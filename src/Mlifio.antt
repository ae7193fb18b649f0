-- ===== src/Mlifio.antt =====
-- lib/ml_interface/v2/mlifio: tensors in files. A file is its bytes, and `none` for one that does not exist;
-- a stream that is read is what is left of it. `none` as a result is a division by 0, a read of memory
-- outside an object, or a loop that never ends. `size_t` and `int` have 32 bits, and `char` has no sign.
pub mod Text
pub mod Header
pub mod Read
pub mod RoundTrip
pub mod Examples
use mlonmcu_sw.Base.{
  ℕ, zero, suc, ◌+◌, ◌-◌, ◌*◌, ◌/◌, ◌%◌, ◌^◌, Bool, true, false, ◌&&◌, ◌||◌, not, Option, some,
  none, List, [], ◌∷◌, ◌++◌, length, take, drop, replicate, get_or, ◌==◌, ltb, leb, if◌then◌else◌,
}
use mlonmcu_sw.Base.{u16, u32, sub32}
use mlonmcu_sw.Base.Partial.{◌>>=◌}
use mlonmcu_sw.Mlifio.Text.{codes, print_size, atoi}

pub data Datatype : Type 0 where
  int8 int16 int32 uint8 uint16 uint32 float raw : Datatype

pub data DataOrder : Type 0 where
  c_order fortran_order : DataOrder

pub data IoStatus : Type 0 where
  io_success io_error : IoStatus

-- `mlif_file_mode`, with the values that are neither.
pub data FileMode : Type 0 where
  npy bin other_mode : FileMode

-- `mlif_data_config`, `ndim` being the length of `shape`; `row` is never read.
pub record DataConfig : Type 0 where
  pub nbatch : ℕ
  pub nsample : ℕ
  pub shape : List ℕ
  pub col : ℕ
  pub dtype : Datatype
  pub order : DataOrder

-- The letter and the size that `mlifio_to_file` chooses for a datatype.
abbrev pub letter : Datatype → ℕ
letter int8 = b'i'
letter int16 = b'i'
letter int32 = b'i'
letter uint8 = b'u'
letter uint16 = b'u'
letter uint32 = b'u'
letter float = b'f'
letter raw = b'V'

abbrev pub dsize : Datatype → ℕ
dsize int8 = 1
dsize int16 = 2
dsize int32 = 4
dsize uint8 = 1
dsize uint16 = 2
dsize uint32 = 4
dsize float = 4
dsize raw = 1

-- `size *= config->shape[i]` for every `i`.
abbrev pub size_loop : List ℕ → ℕ → ℕ
size_loop [] size = size
size_loop (n ∷ shape) size = size_loop shape (u32 (size * n))

-- The bytes of one input.
abbrev pub input_size : Datatype → List ℕ → ℕ
input_size dtype shape = size_loop shape (dsize dtype)

-- `size * (config->nsample / config->nbatch)`.
abbrev pub batch_size : (size : ℕ) → DataConfig → ℕ
batch_size size c = u32 (size * (c.nsample / c.nbatch))

abbrev pub order_text : DataOrder → List ℕ
order_text fortran_order = codes "True"
order_text c_order = codes "False"

-- The loop of `fprintf(fp, "%zu, ", config->shape[i])`.
abbrev pub print_shape : List ℕ → List ℕ
print_shape [] = []
print_shape (n ∷ shape) = print_size n ++ codes ", " ++ print_shape shape

-- `fseek(fp, -2, SEEK_CUR)` before a print of two bytes or more, at the end of a file.
abbrev pub back_two : List ℕ → List ℕ
back_two s = take (length s - 2) s

-- `printf("%*s\n", width, " ")`: a width below 0 pads on the other side.
abbrev pub pad : (position : ℕ) → List ℕ
pad position =
    if ltb position 127
    then replicate (127 - position) b' '
    else if position == 127
    then b' ' ∷ []
    else replicate (position - 127) b' '

-- The magic string and the length of the header's text.
abbrev pub magic : List ℕ
magic = 0x93 ∷ b'N' ∷ b'U' ∷ b'M' ∷ b'P' ∷ b'Y' ∷ 1 ∷ 0 ∷ 118 ∷ 0 ∷ []

-- The first `fprintf` and the loop after it.
abbrev pub described : DataConfig → List ℕ
described c =
    magic
    ++ (codes "{'descr': '<"
        ++ (letter c.dtype
            ∷ (b'0' + dsize c.dtype)
            ∷ (codes "', 'fortran_order': "
                ++ (order_text c.order
                    ++ (codes ", 'shape': ("
                        ++ (print_size c.nbatch
                            ++ (codes ", "
                                ++ (print_size (c.nsample / c.nbatch)
                                    ++ (codes ", " ++ print_shape c.shape)))))))))

abbrev pub closed : DataConfig → List ℕ
closed c = back_two (described c) ++ codes "), }"

-- A new file's header.
unfoldable pub header : DataConfig → List ℕ
header c = closed c ++ (pad (length (closed c)) ++ b'\n' ∷ [])

-- `fwrite`: as many bytes of the data as asked for.
abbrev pub write : (count : ℕ) → List ℕ → List ℕ → Option (List ℕ)
write count bytes file = if leb count (length bytes) then some (file ++ take count bytes) else none

abbrev pub old : Option (List ℕ) → List ℕ
old none = []
old (some file) = file

abbrev pub npy_start : DataConfig → Option (List ℕ) → List ℕ
npy_start c none = header c
npy_start c (some file) = file

-- `mlifio_to_file`: the status and the file. A file that does not exist can be made.
unfoldable pub mlifio_to_file :
    FileMode
    → Option (List ℕ)
    → (config : Option DataConfig) → (bytes : Option (List ℕ)) → Option (IoStatus × Option (List ℕ))
mlifio_to_file mode file none bytes = some (io_error, file)
mlifio_to_file mode file (some c) none = some (io_error, file)
mlifio_to_file npy file (some c) (some bytes) = if c.nbatch == 0 then none else (do
  file' ← write (batch_size (input_size c.dtype c.shape) c) bytes (npy_start c file)
  some (io_success, some file'))
mlifio_to_file bin file (some c) (some bytes) = if c.nbatch == 0 then none else (do
  file' ← write (batch_size (input_size c.dtype c.shape) c) bytes (old file)
  some (io_success, some file'))
mlifio_to_file other_mode file (some c) (some bytes) = some (io_error, file)
