-- ===== src/StrUtil/Trim.antt =====
-- A text without a blank at its ends.
use wfrest.Base.{
  ℕ, zero, suc, ◌≡◌, refl, ap, ◌∙◌, false, [], ◌∷◌, ◌++◌, length, get_or, take-length, is_space,
  Bytes, arith,
}
use wfrest.StrUtil.{ltrim, rtrim, last_solid, trim}

last_solid-last : (s : Bytes) (n : ℕ) → is_space (get_or s n 0) ≡ false → last_solid s n ≡ n
unfolding last_solid
last_solid-last s zero h = refl
last_solid-last s (suc n) h = rw (h, last_solid) refl

last_byte : (c : ℕ) (s : Bytes) (d : ℕ) → get_or (c ∷ (s ++ d ∷ [])) (length (s ++ d ∷ [])) 0 ≡ d
last_byte c [] d = refl
last_byte c (e ∷ s) d = last_byte e s d

rtrim-solid :
    (c : ℕ) (s : Bytes) (d : ℕ) → is_space d ≡ false → rtrim (c ∷ (s ++ d ∷ [])) ≡ c ∷ (s ++ d ∷ [])
unfolding rtrim
rtrim-solid c s d h =
    let last = last_byte c s d in
    let solid = last_solid-last (c ∷ (s ++ d ∷ [])) (length (s ++ d ∷ [])) (ap is_space last ∙ h) in
    rw (solid, rtrim) (rw (last, h) (ground (arith, take-length (c ∷ (s ++ d ∷ [])))))

-- A text between solid bytes, with one blank in front of it.
pub trim_blank :
    (c : ℕ) (s : Bytes) (d : ℕ)
    → is_space c ≡ false
    → is_space d ≡ false
    → trim (b' ' ∷ c ∷ (s ++ d ∷ [])) ≡ c ∷ (s ++ d ∷ [])
unfolding trim
trim_blank c s d first last =
    rw (rtrim-solid b' ' (c ∷ s) d last) (unfold ltrim in rw (first, ltrim) refl)
