-- ===== src/HttpMsg/Body/Transfer.antt =====
-- A body that is sent by one side and read by the other.
use wfrest.Base.{
  ℕ, Bool-cases, inl, inr, ◌≡◌, refl, true, [], ◌∷◌, Option, some, if◌then◌else◌, Bytes, codes,
}
use wfrest.HeaderMap
use wfrest.HttpMsg.{header}
use wfrest.HttpMsg.Body.{gzip, ungzip, names_gzip, compress, or_plain, decoded, string_body, body}

module _ (deflate inflate : Bytes → Option Bytes) where
  -- What the stream that compresses makes of bytes, the other one undoes.
  abbrev pub Inverse : Type 0
  Inverse =
      (c : ℕ) (s : Bytes)
      → (t : Bytes) × (deflate (c ∷ s) ≡ some t) × (ungzip inflate t ≡ some (c ∷ s))

  decoded-gzip :
      (str : Bytes) → Inverse → decoded inflate true (or_plain (gzip deflate str) str) ≡ str
  unfolding decoded gzip ungzip or_plain
  decoded-gzip [] inverse = refl
  decoded-gzip (c ∷ s) inverse =
      let (t, sent, back) = inverse c s in rw (sent, gzip) (rw (back, ungzip) refl)

  -- For every text, every value of `Content-Encoding`, and streams that are inverse to one another:
  -- the body that is sent without that header is read as the text; with the header it is read as
  -- the text if the value names gzip, and as the empty text if it does not.
  pub body-string_body :
      (str encoding : Bytes)
      → Inverse
      → let name = codes "Content-Encoding" in
        (body inflate [] (string_body deflate [] str) [] ≡ str)
        × (body inflate
              ((name, encoding ∷ []) ∷ [])
              (string_body deflate ((name, encoding) ∷ []) str)
              []
            ≡ (if names_gzip encoding then str else []))
  unfolding body string_body compress HeaderMap.find header gzip
  body-string_body str encoding inverse = (
    refl,
    elim (Bool-cases (names_gzip encoding)) [
      | inl e ↦ rw e (decoded-gzip str inverse)
      | inr e ↦ rw e refl
    ],
  )
