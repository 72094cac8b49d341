-- ===== src/HeaderMap.antt =====
-- `std::map` with MapStringCaseLess of src/util/StrUtil.h: names of headers, in whatever letters they
-- are written, as the list of its entries in the map's order.
use wfrest.Base.{
  Bool, true, false, List, [], ◌∷◌, Option, none, some, map, if◌then◌else◌, equal_nocase, to_lower,
  c_str, Bytes,
}
use wfrest.StringPiece.{less}

-- `strcasecmp(a, b) < 0`.
unfoldable pub less_nocase : Bytes → Bytes → Bool
unfolding less to_lower c_str
less_nocase a b = less (map to_lower (c_str a)) (map to_lower (c_str b))

module _ {ℓ} {V : Type ℓ} where
  unfoldable pub find : Bytes → List (Bytes × V) → Option V
  unfolding equal_nocase
  find key [] = none
  find key ((name, value) ∷ headers) =
      if equal_nocase name key then some value else find key headers

  -- `headers[key] = value`; an entry keeps the letters of its first name.
  unfoldable pub insert : Bytes → V → List (Bytes × V) → List (Bytes × V)
  unfolding less_nocase equal_nocase
  insert key value [] = (key, value) ∷ []
  insert key value ((name, old) ∷ headers) =
      let rest = insert key value headers in
      if equal_nocase name key
      then (name, value) ∷ headers
      else if less_nocase key name
      then (key, value) ∷ (name, old) ∷ headers
      else (name, old) ∷ rest

  -- `find(key) != end()`.
  unfoldable pub contains : Bytes → List (Bytes × V) → Bool
  unfolding find
  contains key headers = elim (find key headers) [ none ↦ false | some _ ↦ true ]
