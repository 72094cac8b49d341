-- ===== src/StrUtil/Pairs.antt =====
-- `trim_pairs` of a text in brackets or quotes.
use wfrest.Base.{
  ℕ, ◌^◌, ◌-◌, ◌≡◌, refl, ap, true, false, [], ◌∷◌, ◌++◌, ltb, length, length-append, take-append,
  get_or-last, Bytes, arith,
}
use wfrest.StrUtil.{view, wrapped, has_pair, trim_pairs}

length-inside : (o c : ℕ) (s : Bytes) → length (o ∷ (s ++ c ∷ [])) - 2 ≡ length s
length-inside o c s = let whole = length-append s (c ∷ []) in ground arith

-- For all bytes around it and all pairs: of a text between the two bytes of a pair `trim_pairs`
-- leaves the text, and of a single byte that both opens and closes a pair a piece whose size wraps.
pub trim_pairs-has_pair :
    (before after o c : ℕ) (s pairs : Bytes)
    → (has_pair o c pairs ≡ true → trim_pairs before after (o ∷ (s ++ c ∷ [])) pairs ≡ view s)
      × (has_pair o o pairs ≡ true → trim_pairs before after (o ∷ []) pairs ≡ wrapped (2 ^ 64 - 1))
unfolding trim_pairs
trim_pairs-has_pair before after o c s pairs = (
  λ h.
      let last = get_or-last (o ∷ s) c before in
      let long : ltb (length (o ∷ (s ++ c ∷ []))) 2 ≡ false =
        (let whole = length-append s (c ∷ []) in ground arith) in
      rw (last, trim_pairs)
        (rw h (rw long (rw (length-inside o c s) (ap (λ t. view t) (take-append s (c ∷ [])))))),
  λ h. rw (h, trim_pairs) refl,
)
