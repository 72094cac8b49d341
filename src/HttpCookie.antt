-- ===== src/HttpCookie.antt =====
-- src/core/HttpCookie.{h,cc}: a cookie of a response, and the text of its `Set-Cookie` header.
--
-- The text that `to_format_str` makes of a time is a parameter, since it asks the system for the
-- local time. `split` of a request's cookies is in UriUtil, whose helpers it shares.
pub mod Dump
use wfrest.Base.{
  ℕ, ◌+◌, ◌-◌, Bool, true, false, not, ◌&&◌, [], ◌∷◌, ◌++◌, ◌==◌, ltb, if◌then◌else◌, length, take,
  equal, Bytes, codes, to_string, ℤ, pos, negsuc, is_positive,
}

-- The values of the C++ enumeration, of which `defaulted` is `DEFAULT`.
pub data SameSite : Type 0 where
  defaulted strict lax none_site : SameSite

unfoldable pub same_site_to_str : SameSite → Bytes
same_site_to_str strict = codes "Strict"
same_site_to_str lax = codes "Lax"
same_site_to_str none_site = codes "None"
same_site_to_str defaulted = []

-- `expires` is microseconds since the epoch.
pub record HttpCookie : Type 0 where
  pub key : Bytes
  pub value : Bytes
  pub domain : Bytes
  pub path : Bytes
  pub expires : ℕ
  pub max_age : ℤ
  pub secure : Bool
  pub http_only : Bool
  pub same_site : SameSite

-- `Timestamp::valid`.
unfoldable pub is_valid_time : ℕ → Bool
is_valid_time micro_sec_since_epoch = ltb 0 micro_sec_since_epoch

-- `empty()` of a string.
abbrev pub is_empty : Bytes → Bool
is_empty [] = true
is_empty (c ∷ s) = false

-- `std::to_string` of an `int`.
unfoldable pub signed_text : ℤ → Bytes
unfolding to_string
signed_text (pos n) = to_string n
signed_text (negsuc n) = b'-' ∷ to_string (n + 1)

-- An attribute with what stands behind it, where the code appends it.
append_if : Bool → Bytes → Bytes → Bytes
append_if test text ret = if test then ret ++ (text ++ codes "; ") else ret

module _ (to_format_str : ℕ → Bytes) where
  -- The text before `resize`.
  unfoldable pub dump_text : HttpCookie → Bytes
  unfolding append_if is_valid_time same_site_to_str signed_text
  dump_text c =
      let has_max_age = is_positive c.max_age in
      let same_site = same_site_to_str c.same_site in
      let ret = c.key ++ (b'=' ∷ (c.value ++ codes "; ")) in
      let ret1 = append_if has_max_age (codes "Max-Age" ++ (b'=' ∷ signed_text c.max_age)) ret in
      let ret2 =
        append_if (not has_max_age && is_valid_time c.expires)
          (codes "Expires=" ++ to_format_str c.expires) ret1 in
      let ret3 = append_if (not (is_empty c.domain)) (codes "Domain=" ++ c.domain) ret2 in
      let ret4 = append_if (not (is_empty c.path)) (codes "Path=" ++ c.path) ret3 in
      let ret5 = append_if c.secure (codes "Secure") ret4 in
      let ret6 = append_if c.http_only (codes "HttpOnly") ret5 in
      let ret7 = append_if (not (is_empty same_site)) (codes "SameSite=" ++ same_site) ret6 in
      append_if (equal same_site (codes "None") && not c.secure) (codes "Secure") ret7

  unfoldable pub dump : HttpCookie → Bytes
  unfolding dump_text
  dump c = let ret = dump_text c in take (length ret - 2) ret
