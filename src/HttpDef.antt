-- ===== src/HttpDef.antt =====
-- src/core/HttpDef.{h,cc}: the content types, by their names and by the suffixes of files.
pub mod Suffixes
use wfrest.Base.{
  Bool, true, false, ◌&&◌, List, [], ◌∷◌, ◌++◌, ◌==◌, if◌then◌else◌, equal, c_str, ◌≡◌, refl, Bytes,
  codes, ◌⊎◌, inl, inr,
}

pub data HttpContentType : Type 0 where
  content_type_none : HttpContentType
  text_plain text_html text_css : HttpContentType
  image_jpeg image_png image_gif image_bmp image_svg : HttpContentType
  application_octet_stream application_javascript application_xml : HttpContentType
  application_json application_grpc application_urlencoded : HttpContentType
  multipart_form_data : HttpContentType
  content_type_undefined : HttpContentType

-- `HTTP_CONTENT_TYPE_MAP`: the types with their names and suffixes.
abbrev pub content_type_map : List (HttpContentType × (Bytes × Bytes))
content_type_map =
    (text_plain, (codes "text/plain", codes "txt"))
    ∷ (text_html, (codes "text/html", codes "html"))
    ∷ (text_css, (codes "text/css", codes "css"))
    ∷ (image_jpeg, (codes "image/jpeg", codes "jpg"))
    ∷ (image_png, (codes "image/png", codes "png"))
    ∷ (image_gif, (codes "image/gif", codes "gif"))
    ∷ (image_bmp, (codes "image/bmp", codes "bmp"))
    ∷ (image_svg, (codes "image/svg", codes "svg"))
    ∷ (application_octet_stream, (codes "application/octet-stream", codes "bin"))
    ∷ (application_javascript, (codes "application/javascript", codes "js"))
    ∷ (application_xml, (codes "application/xml", codes "xml"))
    ∷ (application_json, (codes "application/json", codes "json"))
    ∷ (application_grpc, (codes "application/grpc", codes "grpc"))
    ∷ (application_urlencoded, (codes "application/x-www-form-urlencoded", codes "kv"))
    ∷ (multipart_form_data, (codes "multipart/form-data", codes "mp"))
    ∷ []

unfoldable pub to_str : HttpContentType → Bytes
to_str content_type_none = codes "<unknown>"
to_str text_plain = codes "text/plain"
to_str text_html = codes "text/html"
to_str text_css = codes "text/css"
to_str image_jpeg = codes "image/jpeg"
to_str image_png = codes "image/png"
to_str image_gif = codes "image/gif"
to_str image_bmp = codes "image/bmp"
to_str image_svg = codes "image/svg"
to_str application_octet_stream = codes "application/octet-stream"
to_str application_javascript = codes "application/javascript"
to_str application_xml = codes "application/xml"
to_str application_json = codes "application/json"
to_str application_grpc = codes "application/grpc"
to_str application_urlencoded = codes "application/x-www-form-urlencoded"
to_str multipart_form_data = codes "multipart/form-data"
to_str content_type_undefined = codes "<unknown>"

-- Of the bytes in front of a NUL.
unfoldable pub strstartswith : Bytes → Bytes → Bool
strstartswith s [] = true
strstartswith [] (d ∷ start) = false
strstartswith (c ∷ s) (d ∷ start) = c == d && strstartswith s start

pub first_name : Bytes → List (HttpContentType × (Bytes × Bytes)) → HttpContentType
unfolding strstartswith
first_name s [] = content_type_undefined
first_name s ((type, (name, suffix)) ∷ types) =
    let rest = first_name s types in if strstartswith s name then type else rest

unfoldable pub to_enum : Bytes → HttpContentType
unfolding first_name c_str
to_enum [] = content_type_none
to_enum (c ∷ s) = first_name (c_str (c ∷ s)) content_type_map

first_suffix : Bytes → List (HttpContentType × (Bytes × Bytes)) → HttpContentType
first_suffix s [] = content_type_undefined
first_suffix s ((type, (name, suffix)) ∷ types) =
    let rest = first_suffix s types in if equal s suffix then type else rest

unfoldable pub to_enum_by_suffix : Bytes → HttpContentType
unfolding first_suffix
to_enum_by_suffix [] = content_type_none
to_enum_by_suffix (c ∷ s) = first_suffix (c ∷ s) content_type_map

name_of_suffix : Bytes → List (HttpContentType × (Bytes × Bytes)) → Bytes
name_of_suffix s [] = []
name_of_suffix s ((type, (name, suffix)) ∷ types) =
    let rest = name_of_suffix s types in if equal s suffix then name else rest

unfoldable pub to_str_by_suffix : Bytes → Bytes
unfolding name_of_suffix
to_str_by_suffix [] = []
to_str_by_suffix (c ∷ s) = name_of_suffix (c ∷ s) content_type_map

-- For every content type and every text behind its name, parameters say: the name with that text is
-- read back as the type, except that the names of none and undefined are read as undefined.
pub to_enum-to_str :
    (type : HttpContentType) (rest : Bytes)
    → (to_enum (to_str type ++ rest) ≡ type)
      ⊎ ((to_enum (to_str type ++ rest) ≡ content_type_undefined)
          × (to_str type ≡ codes "<unknown>"))
unfolding to_enum to_str first_name strstartswith c_str
to_enum-to_str content_type_none rest = inr (refl, refl)
to_enum-to_str text_plain rest = inl refl
to_enum-to_str text_html rest = inl refl
to_enum-to_str text_css rest = inl refl
to_enum-to_str image_jpeg rest = inl refl
to_enum-to_str image_png rest = inl refl
to_enum-to_str image_gif rest = inl refl
to_enum-to_str image_bmp rest = inl refl
to_enum-to_str image_svg rest = inl refl
to_enum-to_str application_octet_stream rest = inl refl
to_enum-to_str application_javascript rest = inl refl
to_enum-to_str application_xml rest = inl refl
to_enum-to_str application_json rest = inl refl
to_enum-to_str application_grpc rest = inl refl
to_enum-to_str application_urlencoded rest = inl refl
to_enum-to_str multipart_form_data rest = inl refl
to_enum-to_str content_type_undefined rest = inr (refl, refl)
