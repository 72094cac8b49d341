-- ===== src/StrUtil/Split.antt =====
-- `split_piece` and the join of its pieces are inverse to one another.
use wfrest.Base.{
  ℕ, ◌≡◌, ◌≢◌, refl, ◌∙◌, sym, ap, inl, inr, false, List, [], ◌∷◌, ◌++◌, arith, ◌==◌, Bytes,
  Bool-cases, All,
}
use mathlib.Core.List.{append_assoc, append-nil}
use wfrest.StrUtil.{split_loop, split_piece}

-- The pieces with the separator between them.
abbrev pub join : ℕ → List Bytes → Bytes
join sep [] = []
join sep (p ∷ []) = p
join sep (p ∷ q ∷ ps) = p ++ (sep ∷ join sep (q ∷ ps))

-- The byte does not occur.
abbrev pub Lacks : ℕ → Bytes → Type 0
Lacks sep = All (λ c. (c == sep) ≡ false)

pub Lacks-append : (sep : ℕ) (a b : Bytes) → Lacks sep a → Lacks sep b → Lacks sep (a ++ b)
Lacks-append sep [] b h k = k
Lacks-append sep (c ∷ a) b h k = (h.0, Lacks-append sep a b h.1 k)

split_loop-ne-nil : (sep : ℕ) (piece s : Bytes) → split_loop sep piece s ≢ []
unfolding split_loop
split_loop-ne-nil sep piece [] = λ e. cc
split_loop-ne-nil sep piece (c ∷ s) = elim (Bool-cases (c == sep)) [
  | inl e ↦ rw (e, split_loop) (λ h. cc)
  | inr e ↦ rw (e, split_loop) (split_loop-ne-nil sep (piece ++ c ∷ []) s)
]

join-cons :
    (sep : ℕ) (p : Bytes) (ps : List Bytes) → ps ≢ [] → join sep (p ∷ ps) ≡ p ++ (sep ∷ join sep ps)
join-cons sep p [] h = absurd (h refl)
join-cons sep p (q ∷ ps) h = refl

join-split_loop : (sep : ℕ) (piece s : Bytes) → join sep (split_loop sep piece s) ≡ piece ++ s
unfolding split_loop
join-split_loop sep piece [] = sym (append-nil piece)
join-split_loop sep piece (c ∷ s) = elim (Bool-cases (c == sep)) [
  | inl e ↦
      rw (e, split_loop)
        (join-cons sep piece _ (split_loop-ne-nil sep [] s)
          ∙ rw (join-split_loop sep [] s) (ground arith))
  | inr e ↦
      rw (e, split_loop) (join-split_loop sep (piece ++ c ∷ []) s ∙ append_assoc piece (c ∷ []) s)
]

split_loop-Lacks :
    (sep : ℕ) (piece s : Bytes) → Lacks sep piece → All (Lacks sep) (split_loop sep piece s)
unfolding split_loop
split_loop-Lacks sep piece [] h = (h, tt)
split_loop-Lacks sep piece (c ∷ s) h = elim (Bool-cases (c == sep)) [
  | inl e ↦ rw (e, split_loop) (h, split_loop-Lacks sep [] s tt)
  | inr e ↦
      rw (e, split_loop)
        (split_loop-Lacks sep (piece ++ c ∷ []) s (Lacks-append sep piece (c ∷ []) h (e, tt)))
]

-- For every bytes and separator: the pieces joined by the separator are the bytes again, and no
-- piece holds the separator.
pub join-split_piece :
    (s : Bytes) (sep : ℕ) → (join sep (split_piece s sep) ≡ s) × All (Lacks sep) (split_piece s sep)
unfolding split_piece
join-split_piece [] sep = (refl, tt)
join-split_piece (c ∷ s) sep = (join-split_loop sep [] (c ∷ s), split_loop-Lacks sep [] (c ∷ s) tt)

split_loop-piece :
    (sep : ℕ) (piece p s : Bytes)
    → Lacks sep p
    → split_loop sep piece (p ++ s) ≡ split_loop sep (piece ++ p) s
unfolding split_loop
split_loop-piece sep piece [] s h = rw append-nil
split_loop-piece sep piece (c ∷ p) s h =
    rw (h.0, split_loop) (split_loop-piece sep (piece ++ c ∷ []) p s h.1 ∙ rw append_assoc)

split_loop-sep :
    (sep : ℕ) (piece s : Bytes) → split_loop sep piece (sep ∷ s) ≡ piece ∷ split_loop sep [] s
unfolding split_loop
split_loop-sep sep piece s = ground arith

split_loop-join :
    (sep : ℕ) (p : Bytes) (ps : List Bytes)
    → All (Lacks sep) (p ∷ ps)
    → split_loop sep [] (join sep (p ∷ ps)) ≡ p ∷ ps
split_loop-join sep p [] h =
    ap (split_loop sep []) (sym (append-nil p))
    ∙ split_loop-piece sep [] p [] h.0
    ∙ unfold split_loop in refl
split_loop-join sep p (q ∷ ps) h =
    split_loop-piece sep [] p _ h.0
    ∙ split_loop-sep sep p _
    ∙ ap (◌∷◌ p) (split_loop-join sep q ps h.1)

-- For pieces that lack the separator and do not join to the empty text: splitting the join gives
-- the pieces back, in order, the empty ones included.
pub split_piece-join :
    (sep : ℕ) (ps : List Bytes)
    → All (Lacks sep) ps
    → join sep ps ≢ []
    → split_piece (join sep ps) sep ≡ ps
split_piece-join sep [] h ne = absurd (ne refl)
split_piece-join sep (p ∷ ps) h ne = nonempty (join sep (p ∷ ps)) ne ∙ split_loop-join sep p ps h
  where
    nonempty : (s : Bytes) → s ≢ [] → split_piece s sep ≡ split_loop sep [] s
    nonempty [] k = absurd (k refl)
    nonempty (c ∷ s) k = unfold split_piece in refl
