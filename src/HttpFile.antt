-- ===== src/HttpFile.antt =====
-- src/core/HttpFile.cc: the range of a file that `send_file` reads.
--
-- An `int` is its 32 bits, a number below 2^32, of which those from 2^31 on are negative. Whether
-- the path is a file and what size it has are parameters: a size is none where `stat` fails.
use wfrest.Base.{
  ℕ, ◌+◌, ◌-◌, ◌%◌, ◌^◌, ◌<◌, ◌≡◌, ap, Bool, true, false, not, ◌||◌, Option, none, some, ◌==◌, leb,
  if◌then◌else◌, Bytes, arith,
}
use wfrest.ErrorCode.{ErrorCode, status_not_found, status_file_range_invalid}
use wfrest.PathUtil.{suffix}
use wfrest.HttpDef.{
  HttpContentType, content_type_none, content_type_undefined, application_octet_stream,
  to_enum_by_suffix,
}

-- The conversion of a `size_t` to an `int`.
unfoldable pub to_int : ℕ → ℕ
to_int n = n % 2 ^ 32

unfoldable pub is_negative : ℕ → Bool
is_negative x = leb (2 ^ 31) x

-- `end <= start` of two ints.
unfoldable pub less_equal : ℕ → ℕ → Bool
less_equal a b = leb ((a + 2 ^ 31) % 2 ^ 32) ((b + 2 ^ 31) % 2 ^ 32)

abbrev minus_one : ℕ
minus_one = 4294967295

-- What is sent: an error, or the task of a read with the headers `Content-Type` and
-- `Content-Range`, whose numbers are the start, the end and the size.
pub data SendResult : Type 0 where
  refused : ErrorCode → SendResult
  reads : HttpContentType → ℕ → ℕ → ℕ → SendResult

or_octet_stream : HttpContentType → HttpContentType
or_octet_stream content_type_none = application_octet_stream
or_octet_stream content_type_undefined = application_octet_stream
or_octet_stream type = type

-- Where the suffix is empty the type stays none.
unfoldable pub content_type_of : Bytes → HttpContentType
unfolding or_octet_stream to_enum_by_suffix suffix
content_type_of path = or_octet_stream (to_enum_by_suffix (suffix path))

read_range : Bytes → ℕ → ℕ → SendResult
unfolding less_equal content_type_of
read_range path start end_ =
    if less_equal end_ start
    then refused status_file_range_invalid
    else reads (content_type_of path) start end_ ((end_ + 2 ^ 32 - start) % 2 ^ 32)

-- The start and the end, of a file of the size, where one of them asks for it.
from_size : Bytes → Option ℕ → ℕ → ℕ → SendResult
unfolding read_range is_negative to_int
from_size path none start end_ = refused status_not_found
from_size path (some file_size) start end_ =
    read_range path (if is_negative start then to_int (file_size + start) else start)
      (if end_ == minus_one then to_int file_size else end_)

unfoldable pub send_file : Bool → Option ℕ → Bytes → ℕ → ℕ → SendResult
unfolding to_int is_negative from_size read_range
send_file is_file size path file_start file_end =
    let start = to_int file_start in
    let end_ = to_int file_end in
    if not is_file
    then refused status_not_found
    else if end_ == minus_one || is_negative start
    then from_size path size start end_
    else read_range path start end_

range-reads :
    (path : Bytes) (first size : ℕ)
    → 0 < size
    → first + size < 2147483648
    → read_range path first (first + size) ≡ reads (content_type_of path) first (first + size) size
unfolding read_range less_equal
range-reads path first size some_bytes small =
    let proper : less_equal (first + size) first ≡ false = ground arith in
    let length_read : (first + size + 2 ^ 32 - first) % 2 ^ 32 ≡ size = omega arith in
    rw (proper, read_range) (ap (reads (content_type_of path) first (first + size)) length_read)

abbrev pub size_max : ℕ
size_max = 18446744073709551615

given-reads :
    (path : Bytes) (file_size first size : ℕ)
    → 0 < size
    → first + size < 2147483648
    → send_file true (some file_size) path first (first + size)
      ≡ reads (content_type_of path) first (first + size) size
unfolding send_file from_size to_int is_negative
given-reads path file_size first size some_bytes below =
    let start : to_int first ≡ first = omega arith in
    let end_ : to_int (first + size) ≡ first + size = omega arith in
    let not_all : (first + size == minus_one) ≡ false = ground arith in
    let not_neg : leb 2147483648 first ≡ false = ground arith in
    rw (end_, send_file)
      (rw start (rw not_all (rw not_neg (range-reads path first size some_bytes below))))

to_end-reads :
    (path : Bytes) (first size : ℕ)
    → 0 < size
    → first + size < 2147483648
    → send_file true (some (first + size)) path first size_max
      ≡ reads (content_type_of path) first (first + size) size
unfolding send_file from_size to_int is_negative
to_end-reads path first size some_bytes below =
    let start : to_int first ≡ first = omega arith in
    let end_ : to_int (first + size) ≡ first + size = omega arith in
    let not_neg : leb 2147483648 first ≡ false = ground arith in
    rw (end_, send_file) (rw start (rw not_neg (range-reads path first size some_bytes below)))

from_end-reads :
    (path : Bytes) (first last : ℕ)
    → 0 < last
    → first + last < 2147483648
    → send_file true (some (first + last)) path (18446744073709551616 - last) size_max
      ≡ reads (content_type_of path) first (first + last) last
unfolding send_file from_size to_int is_negative
from_end-reads path first last some_bytes below =
    let start : to_int (18446744073709551616 - last) ≡ 4294967296 - last = omega arith in
    let from : to_int (first + last + (4294967296 - last)) ≡ first = omega arith in
    let end_ : to_int (first + last) ≡ first + last = omega arith in
    let neg : leb 2147483648 (4294967296 - last) ≡ true = ground arith in
    rw (start, send_file)
      (rw neg (rw from (rw end_ (range-reads path first last some_bytes below))))

-- For every range of at least one byte whose end is below 2^31: it is read as it is given, whatever
-- the file's size is; of a file of that end, with the largest `size_t` as the end the file is read up
-- to its end, and with the negated size as the start too, the last bytes of it are read. The type is
-- that of the path's suffix.
pub send_file-reads :
    (path : Bytes) (file_size first size : ℕ)
    → 0 < size
    → first + size < 2147483648
    → (send_file true (some file_size) path first (first + size)
        ≡ reads (content_type_of path) first (first + size) size)
      × ((send_file true (some (first + size)) path first size_max
            ≡ reads (content_type_of path) first (first + size) size)
          × (send_file true (some (first + size)) path (18446744073709551616 - size) size_max
              ≡ reads (content_type_of path) first (first + size) size))
send_file-reads path file_size first size some_bytes below = (
  given-reads path file_size first size some_bytes below,
  (to_end-reads path first size some_bytes below, from_end-reads path first size some_bytes below),
)
