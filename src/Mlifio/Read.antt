-- ===== src/Mlifio/Read.antt =====
-- `mlifio_from_file` of lib/ml_interface/v2/mlifio/mlifio.c.
use mlonmcu_sw.Base.{
  ℕ, ◌+◌, ◌-◌, ◌*◌, ◌/◌, ◌^◌, Bool, ◌&&◌, Option, some, none, List, [], ◌∷◌, length, take, drop,
  get_or, ◌==◌, ltb, leb, if◌then◌else◌,
}
use mlonmcu_sw.Base.{u16, u32}
use mlonmcu_sw.Base.Partial.{◌>>=◌}
use mlonmcu_sw.Mlifio.Text.{atoi}
use mlonmcu_sw.Mlifio.{
  Datatype, int8, int16, int32, uint8, uint16, uint32, float, raw, DataOrder, c_order,
  fortran_order, IoStatus, io_success, io_error, FileMode, npy, bin, other_mode, DataConfig,
  input_size, batch_size,
}

-- What `fread` leaves in a buffer: what the file has, up to the buffer's length.
abbrev pub fread : List ℕ → (buffer : List ℕ) → List ℕ
fread [] buffer = buffer
fread (c ∷ stream) [] = []
fread (c ∷ stream) (b ∷ buffer) = c ∷ fread stream buffer

-- The chain of `strcmp` with texts of two characters; the third byte of `dtype` is not set before it.
abbrev pub is_text : (c1 c2 : ℕ) → (dtype : List ℕ) → Bool
is_text c1 c2 dtype = get_or dtype 0 0 == c1 && get_or dtype 1 0 == c2 && get_or dtype 2 0 == 0

unfoldable pub datatype_of : List ℕ → Datatype
datatype_of dtype =
    if is_text b'i' b'1' dtype
    then int8
    else if is_text b'i' b'2' dtype
    then int16
    else if is_text b'i' b'4' dtype
    then int32
    else if is_text b'u' b'1' dtype
    then uint8
    else if is_text b'u' b'2' dtype
    then uint16
    else if is_text b'u' b'4' dtype
    then uint32
    else if is_text b'f' b'4' dtype
    then float
    else raw

-- A number's digits up to a comma, and what is left behind it. At the end of the file the loop never ends.
unfoldable pub read_digits : List ℕ → Option (List ℕ × List ℕ)
read_digits [] = none
read_digits (c ∷ stream) =
    let more = read_digits stream in
    if c == b','
    then some ([], stream)
    else if leb b'0' c && leb c b'9'
    then (more >>= λ (ds, rest). some (c ∷ ds, rest))
    else more

-- The buffer has ten bytes, one for the end of the text. One more byte is skipped.
unfoldable pub read_count : List ℕ → Option (ℕ × List ℕ)
unfolding read_digits
read_count stream = do
  (ds, rest) ← read_digits stream
  if ltb (length ds) 10 then some (atoi ds, drop 1 rest) else none

-- `fseek` from the start of the file, which fails where the sum is negative as a `long`.
abbrev pub seek_set : (position : ℕ) → (file stream : List ℕ) → List ℕ
seek_set position file stream = if ltb position (2 ^ 31) then drop position file else stream

abbrev pub order_of : List ℕ → DataOrder
order_of [] = fortran_order
order_of (c ∷ stream) = if c == b'F' then c_order else fortran_order

-- `offset`, of type `short`, as a pattern of 32 bits.
abbrev pub header_offset : List ℕ → ℕ
header_offset bytes =
    let n = u16 (get_or bytes 0 0 + 256 * get_or bytes 1 0) in
    if ltb n (2 ^ 15) then n else n + 2 ^ 32 - 2 ^ 16

-- The status, the configuration and the memory of the data.
pub record Loaded : Type 0 where
  pub status : IoStatus
  pub config : DataConfig
  pub bytes : List ℕ

-- What a call comes to: it returns, it divides by zero, or something else keeps it from returning (a number
-- that the file does not end, or an access behind the digits or the data).
pub data Attempt (A : Type 0) : Type 0 where
  done : A → Attempt A
  zero_division : Attempt A
  stray : Attempt A

abbrev pub attempt : {A B : Type 0} → Option A → (A → Attempt B) → Attempt B
attempt none f = stray
attempt (some a) f = f a

-- `fread` of a number of bytes into the data.
abbrev pub load : (count : ℕ) → (stream bytes : List ℕ) → DataConfig → Attempt Loaded
load count stream bytes c =
    if leb (length (take count stream)) (length bytes)
    then done (record { status = io_success; config = c; bytes = fread (take count stream) bytes })
    else stray

-- The branch of `MLIF_FILE_NPY`, with the bytes that `dtype` holds before it is read.
unfoldable pub from_npy :
    (file : List ℕ) → (dtype : List ℕ) → DataConfig → (bytes : List ℕ) → (idx : ℕ) → Attempt Loaded
from_npy file dtype c bytes idx =
    let at_length = drop 8 file in
    let offset = header_offset (fread at_length (0 ∷ 0 ∷ [])) in
    let at_type = drop 12 (drop 2 at_length) in
    let t = datatype_of (fread (take 2 at_type) dtype) in
    let size = input_size t c.shape in
    let at_order = drop 20 (drop 2 at_type) in
    attempt (read_count (drop 16 (drop 1 at_order))) λ (nbatch, rest).
      attempt (read_count rest) λ (n, rest).
        let c = record c {
          dtype = t;
          order = order_of at_order;
          nbatch = nbatch;
          nsample = u32 (n * nbatch);
        } in
        let at_data = seek_set (u32 (offset + 10 + idx * size)) file rest in
        if nbatch == 0 then zero_division else load (batch_size size c) at_data bytes c

-- The branch of `MLIF_FILE_BIN`.
unfoldable pub from_bin :
    (file : List ℕ) → DataConfig → (bytes : List ℕ) → (idx : ℕ) → Attempt Loaded
from_bin file c bytes idx =
    let size = input_size c.dtype c.shape in
    let c' = record c { nsample = length file / size } in
    if size == 0 then zero_division else load size (seek_set (u32 (idx * size)) file []) bytes c'

-- `mlifio_from_file`.
unfoldable pub mlifio_from_file :
    FileMode
    → Option (List ℕ)
    → (dtype : List ℕ) → DataConfig
    → (bytes : List ℕ) → (idx : ℕ) → Attempt Loaded
unfolding from_npy from_bin
mlifio_from_file npy none dtype c bytes idx =
    done (record { status = io_error; config = c; bytes = bytes })
mlifio_from_file npy (some file) dtype c bytes idx = from_npy file dtype c bytes idx
mlifio_from_file bin none dtype c bytes idx =
    done (record { status = io_error; config = c; bytes = bytes })
mlifio_from_file bin (some file) dtype c bytes idx = from_bin file c bytes idx
mlifio_from_file other_mode file dtype c bytes idx =
    done (record { status = io_error; config = c; bytes = bytes })
