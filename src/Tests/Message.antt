-- ===== src/Tests/Message.antt =====
-- The theorems on content types, boundaries and files that are sent at concrete inputs.
use wfrest.Base.{
  ◌+◌, ◌-◌, ◌≡◌, refl, Bool, true, List, [], ◌∷◌, ◌++◌, map, Option, some, Bytes, codes, arith,
  c_str,
}
use wfrest.MultiPartParser.{cr, lf}
use wfrest.PathUtil.{base, suffix}
use wfrest.HttpDef.{to_str_by_suffix}
use wfrest.HttpContent.{parse_multipart}
use wfrest.HttpContent.Runs.{no_cr}
use wfrest.HttpContent.Form.{form_text, store_parts}
use wfrest.HttpMsg.Encoder.{encode}
use wfrest.HttpMsg.Encoder.Sections.{FileItem, file_of, param_part, file_part, IsRead}
use wfrest.HttpMsg.Encoder.Read.{IsParam, IsItem, encode-parse_multipart}
use wfrest.HttpFile.{send_file, reads, content_type_of, size_max, send_file-reads}

send_file-reads_example :
    (send_file true (some 100) (codes "/a.png") 10 (10 + 20)
      ≡ reads (content_type_of (codes "/a.png")) 10 (10 + 20) 20)
    × ((send_file true (some (10 + 20)) (codes "/a.png") 10 size_max
          ≡ reads (content_type_of (codes "/a.png")) 10 (10 + 20) 20)
        × (send_file true (some (10 + 20)) (codes "/a.png") (18446744073709551616 - 20) size_max
            ≡ reads (content_type_of (codes "/a.png")) 10 (10 + 20) 20))
send_file-reads_example = send_file-reads (codes "/a.png") 100 10 20 (omega arith) (omega arith)

abbrev user_pair : List (Bytes × Bytes)
user_pair = (codes "user", codes "me") ∷ []

abbrev one_file : FileItem
one_file = record { name = codes "pic"; path = codes "/tmp/a.png"; bytes = codes "png" }

abbrev always : Bytes → Bool
always path = true

abbrev one_disk : Bytes → Option Bytes
one_disk path = some (codes "png")

one_file-IsRead : IsRead always always one_disk one_file
unfolding to_str_by_suffix suffix
one_file-IsRead = (refl, refl, refl, λ e. cc)

user_pair-IsParam : IsParam (codes "user", codes "me")
unfolding no_cr
user_pair-IsParam = (((ground arith, ground arith), refl), refl)

one_file-IsItem : IsItem one_file
unfolding no_cr base
one_file-IsItem = (((ground arith, ground arith), refl), ((ground arith, ground arith), refl), refl)

xyz-text : c_str (codes "xyz") ≡ codes "xyz"
unfolding c_str
xyz-text = refl

encode-parse_multipart_example :
    let parts = map param_part user_pair ++ map file_part (one_file ∷ []) in
    let text = form_text (codes "xyz") parts (cr ∷ lf ∷ []) in
    (encode always always one_disk
        (record { boundary = codes "xyz"; params = user_pair; files = map file_of (one_file ∷ []) })
      ≡ some (cr ∷ lf ∷ text))
    × (parse_multipart (codes "xyz") text ≡ some (store_parts parts []))
    × (parse_multipart (codes "xyz") (cr ∷ lf ∷ text) ≡ some [])
encode-parse_multipart_example =
    encode-parse_multipart always always one_disk (codes "xyz") user_pair one_file [] xyz-text
      (one_file-IsRead, tt) (user_pair-IsParam, tt) (one_file-IsItem, tt)
