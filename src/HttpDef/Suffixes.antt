-- ===== src/HttpDef/Suffixes.antt =====
-- The names of content types by suffixes, as the values of a header.
use wfrest.Base.{
  ℕ, Bool, true, not, ◌&&◌, ◌≡◌, refl, List, [], ◌∷◌, ◌==◌, get_or, equal, Bytes, All, Bool-cases,
  inl, inr,
}
use wfrest.HttpDef.{HttpContentType, content_type_map, name_of_suffix, to_str_by_suffix}

-- No byte passes the test.
abbrev pub none_is : (ℕ → Bool) → Bytes → Bool
none_is test [] = true
none_is test (c ∷ s) = not (test c) && none_is test s

-- Whether a header's value can be the text: it does not begin with a blank and has no line end.
unfoldable pub is_value : Bytes → Bool
is_value s = not (get_or s 0 0 == b' ') && none_is (λ c. c == 13) s

name_of_suffix-value :
    (s : Bytes) (types : List (HttpContentType × (Bytes × Bytes)))
    → All (λ type. is_value type.1.0 ≡ true) types
    → is_value (name_of_suffix s types) ≡ true
unfolding name_of_suffix is_value
name_of_suffix-value s [] h = refl
name_of_suffix-value s ((type, (name, suffix)) ∷ types) h = elim (Bool-cases (equal s suffix)) [
  | inl e ↦ rw e (h.0)
  | inr e ↦ rw e (name_of_suffix-value s types h.1)
]

names_are_values : All (λ type. is_value type.1.0 ≡ true) content_type_map
unfolding is_value
names_are_values = (
  refl,
  (
    refl,
    (
      refl,
      (
        refl,
        (refl, (refl, (refl, (refl, (refl, (refl, (refl, (refl, (refl, (refl, (refl, tt))))))))))),
      ),
    ),
  ),
)

pub to_str_by_suffix-value : (s : Bytes) → is_value (to_str_by_suffix s) ≡ true
unfolding to_str_by_suffix
to_str_by_suffix-value [] = unfold is_value in refl
to_str_by_suffix-value (c ∷ s) = name_of_suffix-value (c ∷ s) content_type_map names_are_values
