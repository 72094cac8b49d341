-- ===== src/Tests/Text.antt =====
-- The theorems on byte strings and codings at concrete inputs.
use wfrest.StrUtil.Split.{join, Lacks, join-split_piece, split_piece-join}
use wfrest.Base.{some, ◌≡◌, ◌<◌, refl, false, [], ◌∷◌, All, Bytes, codes, arith, ◌≢◌, List}
use wfrest.StrUtil.{split_piece}
use wfrest.CodeUtil.{url_encode, url_decode, is_url_encode}
use wfrest.CodeUtil.RoundTrip.{url_decode-url_encode}
use wfrest.Base64.{encode, decode}
use wfrest.Base64.RoundTrip.{decode-encode}
use wfrest.Map
use wfrest.UriUtil.{split_query, parse_post_kv, Entries}
use wfrest.UriUtil.FirstWins.{find-split_query, render, IsClean}

abbrev hello : Bytes
hello = codes "hello"

join-split_piece_example :
    (join b'&' (split_piece (codes "a&&b") b'&') ≡ codes "a&&b")
    × All (Lacks b'&') (split_piece (codes "a&&b") b'&')
join-split_piece_example = join-split_piece (codes "a&&b") b'&'

abbrev two_pieces : List Bytes
two_pieces = codes "a" ∷ codes "b" ∷ []

two_pieces-ne : join b'&' two_pieces ≢ []
two_pieces-ne = λ e. cc

split_piece-join_example : split_piece (join b'&' two_pieces) b'&' ≡ two_pieces
split_piece-join_example =
    split_piece-join b'&' two_pieces ((refl, tt), ((refl, tt), tt)) two_pieces-ne

hello-bytes : All (λ c. c < 256) hello
hello-bytes = (omega arith, (omega arith, (omega arith, (omega arith, (omega arith, tt)))))

url_decode-url_encode_example : url_decode (url_encode hello) ≡ hello
url_decode-url_encode_example = url_decode-url_encode hello hello-bytes

hello-plain : is_url_encode hello ≡ false
unfolding is_url_encode
hello-plain = refl

decode-encode_example : decode (encode hello) ≡ some hello
decode-encode_example = decode-encode hello (omega arith) hello-bytes

abbrev entries : Entries
entries = (codes "a", codes "1") ∷ (codes "b", []) ∷ (codes "a", codes "2") ∷ []

entries-IsClean : All IsClean entries
entries-IsClean = (
  (λ e. cc, (refl, tt), (refl, tt), (refl, tt), (refl, tt)),
  (
    (λ e. cc, (refl, tt), tt, (refl, tt), tt),
    ((λ e. cc, (refl, tt), (refl, tt), (refl, tt), (refl, tt)), tt),
  ),
)

find-split_query_example :
    (Map.find (codes "a") (split_query (render entries)) ≡ Map.find (codes "a") entries)
    × (Map.find (codes "a") (parse_post_kv (render entries)) ≡ Map.find (codes "a") entries)
find-split_query_example = find-split_query (codes "a") entries entries-IsClean
