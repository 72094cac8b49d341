-- ===== src/UriUtil.antt =====
-- Key and value lists: `UriUtil::split_query` (src/util/UriUtil.cc), `Urlencode::parse_post_kv`
-- (src/core/HttpContent.cc) and `HttpCookie::split` (src/core/HttpCookie.cc).
pub mod FirstWins
use wfrest.Base.{List, [], ◌∷◌, Bool, true, false, if◌then◌else◌, Bytes}
use wfrest.Map.{contains, emplace}
use wfrest.StrUtil.{split_piece, trim}

abbrev pub Entries : Type 0
Entries = List (Bytes × Bytes)

-- The rest of a round on `kv`, the pieces of an element: there is always one.
add_kv : List Bytes → Entries → Entries
unfolding contains emplace
add_kv [] res = res
add_kv ([] ∷ _) res = res
add_kv ((c ∷ key) ∷ []) res = if contains (c ∷ key) res then res else emplace (c ∷ key) [] res
add_kv ((c ∷ key) ∷ val ∷ _) res = if contains (c ∷ key) res then res else emplace (c ∷ key) val res

-- One round of the loop, on an element between two `&`.
add_element : Bytes → Entries → Entries
unfolding add_kv
add_element [] res = res
add_element (c ∷ ele) res = add_kv (split_piece (c ∷ ele) b'=') res

add_elements : List Bytes → Entries → Entries
unfolding add_element
add_elements [] res = res
add_elements (ele ∷ arr) res = add_elements arr (add_element ele res)

unfoldable pub split_query : Bytes → Entries
unfolding add_elements split_piece
split_query query = add_elements (split_piece query b'&') []

-- The same loop over a form's body.
unfoldable pub parse_post_kv : Bytes → Entries
unfolding add_elements split_piece
parse_post_kv body = add_elements (split_piece body b'&') []

-- The round of `HttpCookie::split`: the test is of the key as it stands, the entry has the key
-- and the value without blanks.
add_cookie_kv : List Bytes → Entries → Entries
unfolding contains emplace trim
add_cookie_kv [] res = res
add_cookie_kv ([] ∷ _) res = res
add_cookie_kv ((c ∷ key) ∷ []) res =
    if contains (c ∷ key) res then res else emplace (trim (c ∷ key)) [] res
add_cookie_kv ((c ∷ key) ∷ [] ∷ _) res =
    if contains (c ∷ key) res then res else emplace (trim (c ∷ key)) [] res
add_cookie_kv ((c ∷ key) ∷ val ∷ _) res =
    if contains (c ∷ key) res then res else emplace (trim (c ∷ key)) (trim val) res

add_cookies : List Bytes → Entries → Entries
unfolding add_cookie_kv split_piece
add_cookies [] res = res
add_cookies ([] ∷ arr) res = add_cookies arr res
add_cookies ((c ∷ ele) ∷ arr) res = add_cookies arr (add_cookie_kv (split_piece (c ∷ ele) b'=') res)

unfoldable pub split_cookie : Bytes → Entries
unfolding add_cookies split_piece
split_cookie cookie_piece = add_cookies (split_piece cookie_piece b',') []
