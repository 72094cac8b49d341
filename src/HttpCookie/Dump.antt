-- ===== src/HttpCookie/Dump.antt =====
-- The header's text of a cookie is its attributes.
use wfrest.Base.{
  ℕ, zero, suc, ◌-◌, ◌≡◌, ◌≢◌, refl, sym, ap, ◌∙◌, Bool, true, false, not, ◌&&◌, List, [], ◌∷◌,
  ◌++◌, map, ltb, length, length-append, take, take-append, equal, Bytes, codes, to_string,
  to_string-lacks, All, All-append, arith, ℤ, pos, negsuc, is_positive,
}
use mathlib.Core.List.{append_assoc, append-nil}
use wfrest.StrUtil.{split_piece}
use wfrest.StrUtil.Split.{join, Lacks, Lacks-append, split_piece-join}
use wfrest.HttpCookie.{
  SameSite, defaulted, strict, lax, none_site, HttpCookie, is_empty, append_if, dump_text, dump,
  signed_text, is_valid_time, same_site_to_str,
}

-- An attribute that is there or not.
abbrev flag : Bool → Bytes → List Bytes
flag true text = text ∷ []
flag false text = []

abbrev named : Bytes → Bytes → List Bytes
named name [] = []
named name (c ∷ s) = (name ++ c ∷ s) ∷ []

-- `Max-Age` where it is positive, else `Expires` where it is set.
lifetime : (ℕ → Bytes) → ℤ → ℕ → List Bytes
unfolding to_string
lifetime format (pos (suc max_age)) expires = (codes "Max-Age=" ++ to_string (suc max_age)) ∷ []
lifetime format (pos zero) (suc expires) = (codes "Expires=" ++ format (suc expires)) ∷ []
lifetime format (negsuc n) (suc expires) = (codes "Expires=" ++ format (suc expires)) ∷ []
lifetime format _ zero = []

-- A cookie of all sites is secure, whether it was asked for or not.
site : SameSite → Bool → List Bytes
site defaulted secure = []
site strict secure = codes "SameSite=Strict" ∷ []
site lax secure = codes "SameSite=Lax" ∷ []
site none_site secure = codes "SameSite=None" ∷ flag (not secure) (codes "Secure")

-- The attributes behind the name and value of a cookie.
pub attributes : (ℕ → Bytes) → HttpCookie → List Bytes
unfolding lifetime site
attributes format c =
    lifetime format c.max_age c.expires
    ++ (named (codes "Domain=") c.domain
        ++ (named (codes "Path=") c.path
            ++ (flag c.secure (codes "Secure")
                ++ (flag c.http_only (codes "HttpOnly") ++ site c.same_site c.secure))))

-- Each attribute with what ends it.
ended : List Bytes → Bytes
ended [] = []
ended (a ∷ rest) = a ++ (b';' ∷ b' ' ∷ ended rest)

ended-append : (front back : List Bytes) → ended (front ++ back) ≡ ended front ++ ended back
unfolding ended
ended-append [] back = refl
ended-append (a ∷ front) back = simp (ended-append front back, append_assoc)

append_if-ended :
    (test : Bool) (text : Bytes) (front : List Bytes)
    → append_if test text (ended front) ≡ ended (front ++ flag test text)
unfolding append_if ended
append_if-ended true text front = simp ended-append
append_if-ended false text front = simp append-nil

-- The calls of `append` in `dump`, and the attributes that they leave.
append_all : List (Bool × Bytes) → Bytes → Bytes
unfolding append_if
append_all [] ret = ret
append_all ((test, text) ∷ more) ret = append_all more (append_if test text ret)

flags : List (Bool × Bytes) → List Bytes
flags [] = []
flags ((test, text) ∷ more) = flag test text ++ flags more

append_all-ended :
    (calls : List (Bool × Bytes)) (front : List Bytes)
    → append_all calls (ended front) ≡ ended (front ++ flags calls)
unfolding append_all flags
append_all-ended [] front = simp append-nil
append_all-ended ((test, text) ∷ more) front = rw (append_if-ended test text front) (
    append_all-ended more (front ++ flag test text)
    ∙ ap ended (append_assoc front (flag test text) (flags more)))

abbrev pair_text : HttpCookie → Bytes
pair_text c = c.key ++ b'=' ∷ c.value

abbrev calls : (ℕ → Bytes) → HttpCookie → List (Bool × Bytes)
calls format c =
    let same_site = same_site_to_str c.same_site in
    (is_positive c.max_age, codes "Max-Age=" ++ signed_text c.max_age)
    ∷ (not (is_positive c.max_age) && is_valid_time c.expires, codes "Expires=" ++ format c.expires)
    ∷ (not (is_empty c.domain), codes "Domain=" ++ c.domain)
    ∷ (not (is_empty c.path), codes "Path=" ++ c.path)
    ∷ (c.secure, codes "Secure")
    ∷ (c.http_only, codes "HttpOnly")
    ∷ (not (is_empty same_site), codes "SameSite=" ++ same_site)
    ∷ (equal same_site (codes "None") && not c.secure, codes "Secure")
    ∷ []

ltb-zero : (n : ℕ) → ltb 0 (suc n) ≡ true
ltb-zero n = ground arith

flags-lifetime :
    (format : ℕ → Bytes) (max_age : ℤ) (expires : ℕ) (rest : List Bytes)
    → flag (is_positive max_age) (codes "Max-Age=" ++ signed_text max_age)
        ++ (flag
              (not (is_positive max_age) && is_valid_time expires)
              (codes "Expires=" ++ format expires)
            ++ rest)
      ≡ lifetime format max_age expires ++ rest
unfolding lifetime signed_text is_valid_time
flags-lifetime format (pos zero) zero rest = refl
flags-lifetime format (pos zero) (suc expires) rest = rw (ltb-zero expires) refl
flags-lifetime format (pos (suc n)) zero rest = refl
flags-lifetime format (pos (suc n)) (suc expires) rest = refl
flags-lifetime format (negsuc n) zero rest = refl
flags-lifetime format (negsuc n) (suc expires) rest = rw (ltb-zero expires) refl

flag-named : (name text : Bytes) → flag (not (is_empty text)) (name ++ text) ≡ named name text
flag-named name [] = refl
flag-named name (b ∷ s) = refl

flags-site :
    (s : SameSite) (secure : Bool)
    → flag (not (is_empty (same_site_to_str s))) (codes "SameSite=" ++ same_site_to_str s)
        ++ (flag (equal (same_site_to_str s) (codes "None") && not secure) (codes "Secure") ++ [])
      ≡ site s secure
unfolding same_site_to_str site
flags-site defaulted secure = refl
flags-site strict secure = refl
flags-site lax secure = refl
flags-site none_site true = refl
flags-site none_site false = refl

flags-calls : (format : ℕ → Bytes) (c : HttpCookie) → flags (calls format c) ≡ attributes format c
unfolding flags attributes
flags-calls format c = rw (flags-lifetime format c.max_age c.expires) (
    rw (flag-named (codes "Domain=") c.domain)
      (rw (flag-named (codes "Path=") c.path) (rw (flags-site c.same_site c.secure) refl)))

dump_text-ended :
    (format : ℕ → Bytes) (c : HttpCookie)
    → dump_text format c ≡ ended (pair_text c ∷ attributes format c)
unfolding dump_text append_all ended
dump_text-ended format c =
    ap (append_all (calls format c)) (sym (append_assoc c.key (b'=' ∷ c.value) (codes "; ")))
    ∙ append_all-ended (calls format c) (pair_text c ∷ [])
    ∙ ap (λ l. ended (pair_text c ∷ l)) (flags-calls format c)

-- Joined at semicolons, each attribute but the first has a blank in front.
abbrev spaced : List Bytes → List Bytes
spaced = map (◌∷◌ b' ')

join-cons_byte :
    (sep c : ℕ) (a : Bytes) (rest : List Bytes)
    → join sep ((c ∷ a) ∷ rest) ≡ c ∷ join sep (a ∷ rest)
join-cons_byte sep c a [] = refl
join-cons_byte sep c a (b ∷ rest) = refl

ended-join :
    (a : Bytes) (rest : List Bytes) → ended (a ∷ rest) ≡ join b';' (a ∷ spaced rest) ++ codes "; "
unfolding ended
ended-join a [] = refl
ended-join a (b ∷ rest) =
    ap (λ l. a ++ (b';' ∷ b' ' ∷ l)) (ended-join b rest)
    ∙ rw (join-cons_byte b';' b' ' b (spaced rest)) (simp append_assoc)

take-dropped :
    (n : ℕ) (front back : Bytes)
    → length back ≡ n
    → take (length (front ++ back) - n) (front ++ back) ≡ front
take-dropped n front back e =
    let left : length (front ++ back) - n ≡ length front =
      omega (arith, length-append front back) in
    rw left (take-append front back)

dump-join :
    (format : ℕ → Bytes) (c : HttpCookie)
    → dump format c ≡ join b';' (pair_text c ∷ spaced (attributes format c))
unfolding dump
dump-join format c =
    ap (λ s. take (length s - 2) s)
      (dump_text-ended format c ∙ ended-join (pair_text c) (attributes format c))
    ∙ take-dropped 2 (join b';' (pair_text c ∷ spaced (attributes format c))) (codes "; ") refl

-- No text of the cookie holds the byte, and the format of times makes none with it.
abbrev pub IsClean : (ℕ → Bytes) → HttpCookie → Type 0
IsClean format c =
    Lacks b';' c.key
    × Lacks b';' c.value
    × Lacks b';' c.domain
    × Lacks b';' c.path
    × Lacks b';' (format c.expires)

lifetime-Lacks :
    (format : ℕ → Bytes) (max_age : ℤ) (expires : ℕ)
    → Lacks b';' (format expires)
    → All (Lacks b';') (lifetime format max_age expires)
unfolding lifetime
lifetime-Lacks format (pos zero) zero clean = tt
lifetime-Lacks format (pos zero) (suc expires) clean =
    (Lacks-append b';' (codes "Expires=") (format (suc expires)) (ground arith) clean, tt)
lifetime-Lacks format (pos (suc n)) zero clean = (
  Lacks-append b';' (codes "Max-Age=") (to_string (suc n)) (ground arith)
      (to_string-lacks b';' (suc n) refl),
  tt,
)
lifetime-Lacks format (pos (suc n)) (suc expires) clean = (
  Lacks-append b';' (codes "Max-Age=") (to_string (suc n)) (ground arith)
      (to_string-lacks b';' (suc n) refl),
  tt,
)
lifetime-Lacks format (negsuc n) zero clean = tt
lifetime-Lacks format (negsuc n) (suc expires) clean =
    (Lacks-append b';' (codes "Expires=") (format (suc expires)) (ground arith) clean, tt)

flag-Lacks : (test : Bool) (text : Bytes) → Lacks b';' text → All (Lacks b';') (flag test text)
flag-Lacks true text clean = (clean, tt)
flag-Lacks false text clean = tt

named-Lacks :
    (name text : Bytes) → Lacks b';' name → Lacks b';' text → All (Lacks b';') (named name text)
named-Lacks name [] h clean = tt
named-Lacks name (c ∷ s) h clean = (Lacks-append b';' name (c ∷ s) h clean, tt)

site-Lacks : (s : SameSite) (secure : Bool) → All (Lacks b';') (site s secure)
unfolding site
site-Lacks defaulted secure = tt
site-Lacks strict secure = ground arith
site-Lacks lax secure = ground arith
site-Lacks none_site true = ground arith
site-Lacks none_site false = ground arith

attributes-Lacks :
    (format : ℕ → Bytes) (c : HttpCookie)
    → IsClean format c
    → All (Lacks b';') (attributes format c)
unfolding attributes
attributes-Lacks format c (key, value, domain, path, expires) =
    let P = Lacks b';' in
    All-append P _ _ (lifetime-Lacks format c.max_age c.expires expires) (
      All-append P _ _ (named-Lacks (codes "Domain=") c.domain (ground arith) domain) (
        All-append P _ _ (named-Lacks (codes "Path=") c.path (ground arith) path) (
          All-append P _ _ (flag-Lacks c.secure (codes "Secure") (ground arith)) (
            All-append P _ _ (flag-Lacks c.http_only (codes "HttpOnly") (ground arith))
              (site-Lacks c.same_site c.secure)))))

spaced-Lacks : (rest : List Bytes) → All (Lacks b';') rest → All (Lacks b';') (spaced rest)
spaced-Lacks [] h = tt
spaced-Lacks (a ∷ rest) h = ((refl, h.0), spaced-Lacks rest h.1)

filled : (a b : Bytes) (c : ℕ) (rest : List Bytes) → join b';' ((a ++ c ∷ b) ∷ rest) ≢ []
filled [] b c [] = λ e. cc
filled [] b c (d ∷ rest) = λ e. cc
filled (x ∷ a) b c [] = λ e. cc
filled (x ∷ a) b c (d ∷ rest) = λ e. cc

-- For every cookie none of whose texts holds a semicolon, and every format of times that makes
-- none: the text of the cookie splits at the semicolons into its name and value and then, each
-- behind a blank, its attributes: `Max-Age` if that is above 0, else `Expires` if it is set; the
-- domain and the path that are not empty; and the flags, of which `Secure` stands there also where
-- it was not asked for but the cookie is for all sites.
pub split_piece-dump :
    (format : ℕ → Bytes) (c : HttpCookie)
    → IsClean format c
    → split_piece (dump format c) b';'
      ≡ (c.key ++ b'=' ∷ c.value) ∷ map (◌∷◌ b' ') (attributes format c)
split_piece-dump format c clean =
    let (key, value, domain, path, expires) = clean in
    rw (dump-join format c) (
      split_piece-join b';' (pair_text c ∷ spaced (attributes format c))
        (
          Lacks-append b';' c.key (b'=' ∷ c.value) key (refl, value),
          spaced-Lacks (attributes format c) (attributes-Lacks format c clean),
        )
        (filled c.key c.value b'=' (spaced (attributes format c))))
