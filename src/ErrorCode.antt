-- ===== src/ErrorCode.antt =====
-- src/base/ErrorCode.{h,cc}: the status codes of the framework and their texts.
use wfrest.Base.{ℕ, List, [], ◌∷◌, ◌==◌, if◌then◌else◌, Bytes, codes}

pub data ErrorCode : Type 0 where
  status_ok status_not_found : ErrorCode
  status_compress_error status_compress_not_support status_no_compress : ErrorCode
  status_uncompress_error status_uncompress_not_support status_no_uncompress : ErrorCode
  status_file_range_invalid status_file_read_error status_file_write_error : ErrorCode
  status_json_invalid status_proxy_error : ErrorCode
  status_route_verb_not_implment status_route_not_found : ErrorCode

-- The number that the enumeration gives a code.
unfoldable pub to_int : ErrorCode → ℕ
to_int status_ok = 0
to_int status_not_found = 1
to_int status_compress_error = 2
to_int status_compress_not_support = 3
to_int status_no_compress = 4
to_int status_uncompress_error = 5
to_int status_uncompress_not_support = 6
to_int status_no_uncompress = 7
to_int status_file_range_invalid = 8
to_int status_file_read_error = 9
to_int status_file_write_error = 10
to_int status_json_invalid = 11
to_int status_proxy_error = 12
to_int status_route_verb_not_implment = 13
to_int status_route_not_found = 14

-- `error_code_table`.
abbrev error_code_table : List (ErrorCode × Bytes)
error_code_table =
    (status_ok, codes "OK")
    ∷ (status_compress_error, codes "Compress Error")
    ∷ (status_compress_not_support, codes "Compress Not Support")
    ∷ (status_no_compress, codes "No Comrpession")
    ∷ (status_uncompress_error, codes "Uncompress Error")
    ∷ (status_uncompress_not_support, codes "Uncompress Not Support")
    ∷ (status_no_uncompress, codes "No Uncomrpess")
    ∷ (status_not_found, codes "404 Not Found")
    ∷ (status_file_range_invalid, codes "File Range Invalid")
    ∷ (status_file_read_error, codes "File Read Error")
    ∷ (status_file_write_error, codes "File Write Error")
    ∷ (status_json_invalid, codes "Invalid Json Syntax")
    ∷ (status_proxy_error, codes "Http Proxy Error")
    ∷ (status_route_verb_not_implment, codes "Route Http Method not implement")
    ∷ (status_route_not_found, codes "Route Not Found")
    ∷ []

find_text : ℕ → List (ErrorCode × Bytes) → Bytes
unfolding to_int
find_text code [] = codes "unknown"
find_text code ((c, text) ∷ table) = if to_int c == code then text else find_text code table

unfoldable pub error_code_to_str : ℕ → Bytes
unfolding find_text
error_code_to_str code = find_text code error_code_table
