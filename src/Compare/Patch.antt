-- ===== src/Compare/Patch.antt =====
-- What an object of the result says of a server's attributes.
use wfrest.Base.{
  ℕ, ◌≡◌, refl, sym, ap, ◌∙◌, ◌↔◌, true, false, not, Option, none, some, ◌==◌, if◌then◌else◌, equal,
  equal_iff, Bytes, Bool-cases, inl, inr, arith,
}
use wfrest.CommonCode.{CommonCode, s_success}
use wfrest.FileAttr.{FileAttr, compare_attr, equal_size}
use wfrest.Compare.{AttrJson, empty_json, if_changed, changes, compare_assign}

-- The independent description: a reader takes the standard's attributes and puts in what the
-- object has.
unfoldable pub overlay {ℓ} : {A : Type ℓ} → Option A → A → A
overlay none a = a
overlay (some b) a = b

unfoldable pub patch : AttrJson → FileAttr → FileAttr
unfolding overlay
patch json std = record std {
  f_size = overlay json.size std.f_size;
  f_mode = overlay json.mode std.f_mode;
  f_owner = overlay json.owner std.f_owner;
  f_last_updated = overlay json.last_updated std.f_last_updated;
}

overlay-if_changed : (old new : Bytes) → overlay (if_changed old new none) old ≡ new
unfolding overlay if_changed
overlay-if_changed old new = elim (Bool-cases (equal old new)) [
  | inl e ↦ rw (e, if_changed) ((equal_iff old new).0 e)
  | inr e ↦ rw (e, if_changed) refl
]

equal_size-eq : (a b : Option ℕ) → equal_size a b ≡ true → a ≡ b
unfolding equal_size
equal_size-eq none none h = refl
equal_size-eq (some m) (some n) h = ap some (ground arith)
equal_size-eq none (some n) h = ground arith
equal_size-eq (some m) none h = ground arith

overlay-size : (a b : Option ℕ) → overlay (if equal_size a b then none else some b) a ≡ b
unfolding overlay
overlay-size a b = elim (Bool-cases (equal_size a b)) [
  | inl e ↦ rw e (equal_size-eq a b e)
  | inr e ↦ rw e refl
]

attr-eq :
    (a b : FileAttr)
    → a.f_size ≡ b.f_size
    → a.f_mode ≡ b.f_mode
    → a.f_owner ≡ b.f_owner
    → a.f_last_updated ≡ b.f_last_updated
    → a.f_code ≡ b.f_code
    → a ≡ b
attr-eq a b size mode owner updated code = λ i. record {
  f_size = size i;
  f_mode = mode i;
  f_owner = owner i;
  f_last_updated = updated i;
  f_code = code i;
}

-- `compare` of attributes without errors is equality.
compare_attr-eq : (a b : FileAttr) → compare_attr a b ≡ true → a ≡ b
unfolding compare_attr
compare_attr-eq a b same =
    attr-eq a b (equal_size-eq _ _ (ground arith)) ((equal_iff _ _).0 (ground arith))
      ((equal_iff _ _).0 (ground arith)) ((equal_iff _ _).0 (ground arith)) (ground arith)

equal_size_self : (a : Option ℕ) → equal_size a a ≡ true
unfolding equal_size
equal_size_self none = refl
equal_size_self (some n) = ground arith

compare_attr_self : (a : FileAttr) → a.f_code ≡ s_success → compare_attr a a ≡ true
unfolding compare_attr
compare_attr_self a fine = rw (equal_size_self a.f_size) (
    rw ((equal_iff a.f_mode a.f_mode).1 refl) (
      rw ((equal_iff a.f_owner a.f_owner).1 refl)
        (rw ((equal_iff a.f_last_updated a.f_last_updated).1 refl) (ground arith))))

-- For attributes of the standard and of another server that were read without an error: the object
-- that is made of them, put on the standard's attributes, gives the other server's; and nothing is
-- reported exactly where the attributes are equal.
pub patch-compare_assign :
    (code_msg : CommonCode → Bytes) (std other : FileAttr) (center_name : Bytes)
    → std.f_code ≡ s_success
    → other.f_code ≡ s_success
    → let (told, json) = compare_assign code_msg std other empty_json center_name in
      (patch json std ≡ other) × ((told ≡ false) ↔ (std ≡ other))
unfolding compare_assign patch changes overlay
patch-compare_assign code_msg std other center_name std_fine other_fine =
    let no_error : not (other.f_code == s_success) ≡ false = ground arith in
    let no_std_error : not (std.f_code == s_success) ≡ false = ground arith in
    elim (Bool-cases (compare_attr std other)) [
      | inl same ↦
          rw (no_error, compare_assign)
            (rw no_std_error (
              rw same
                (compare_attr-eq std other same, (λ e. compare_attr-eq std other same, λ e. refl))))
      | inr differ ↦
          rw (no_error, compare_assign)
            (rw no_std_error (
              rw differ (
                attr-eq _ _ (overlay-size std.f_size other.f_size)
                    (overlay-if_changed std.f_mode other.f_mode)
                    (overlay-if_changed std.f_owner other.f_owner)
                    (overlay-if_changed std.f_last_updated other.f_last_updated)
                    (std_fine ∙ sym other_fine),
                (
                  λ e. ground arith,
                  λ e.
                      sym (ap (compare_attr std) (sym e) ∙ compare_attr_self std std_fine) ∙ differ,
                ),
              )))
    ]
