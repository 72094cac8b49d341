-- ===== src/Map.antt =====
-- `std::map` with byte strings for keys, as the list of its entries in key order. The order is
-- that of `std::string`, which is `operator<` of StringPiece.
use wfrest.Base.{
  ◌≡◌, refl, Bool, true, false, List, [], ◌∷◌, Option, none, some, arith, if◌then◌else◌, equal,
  equal_iff, Bytes,
}
use wfrest.StringPiece.{less}

module _ {ℓ} {V : Type ℓ} where
  unfoldable pub find : Bytes → List (Bytes × V) → Option V
  find k [] = none
  find k ((j, v) ∷ m) = if equal j k then some v else find k m

  -- `m[k] = v`.
  unfoldable pub insert : Bytes → V → List (Bytes × V) → List (Bytes × V)
  insert k v [] = (k, v) ∷ []
  insert k v ((j, w) ∷ m) =
      let rest = insert k v m in
      if equal j k then (k, v) ∷ m else if less k j then (k, v) ∷ (j, w) ∷ m else (j, w) ∷ rest

  -- `m.emplace(k, v)`, which keeps an old entry.
  unfoldable pub emplace : Bytes → V → List (Bytes × V) → List (Bytes × V)
  unfolding find insert
  emplace k v m = elim (find k m) [ none ↦ insert k v m | some _ ↦ m ]

  -- `m.count(k) > 0`.
  unfoldable pub contains : Bytes → List (Bytes × V) → Bool
  unfolding find
  contains k m = elim (find k m) [ none ↦ false | some _ ↦ true ]

  pub find-insert :
      (j k : Bytes) (v : V) (m : List (Bytes × V))
      → find j (insert k v m) ≡ (if equal k j then some v else find j m)
  unfolding find insert
  find-insert j k v [] = refl
  find-insert j k v ((i, w) ∷ m) =
      ground (arith, equal_iff i k, equal_iff k j, equal_iff i j, find-insert j k v m)

  pub find-emplace :
      (j k : Bytes) (v : V) (m : List (Bytes × V))
      → contains k m ≡ false
      → find j (emplace k v m) ≡ (if equal k j then some v else find j m)
  unfolding emplace contains
  find-emplace j k v m h = ground (arith, find-insert j k v m)
