-- ===== src/ApiTask/Valid.antt =====
-- What is true of every task that is built.
use wfrest.Base.{
  zero, suc, ◌<◌, ◌≡◌, refl, Bool, true, false, [], ◌∷◌, Option, none, some, Bytes, codes, arith, ℤ,
  pos, negsuc,
}
use wfrest.ApiTask.{
  JsonType, cjson_true, cjson_false, cjson_null, cjson_number, cjson_string, cjson_array,
  cjson_object, CJson, ServerInfo, build_task_server_info, full, full_text, positive, port_of,
  standard_of, regexes_of, ◌>>=◌, text_of,
}

unfoldable pub is_full : Bytes → Bool
is_full [] = false
is_full (c ∷ s) = true

-- A server whose members are all given.
unfoldable pub IsServer : ServerInfo → Type 0
unfolding is_full
IsServer s =
    (is_full s.c_center ≡ true)
    × ((is_full s.c_host ≡ true)
        × ((is_full s.c_user ≡ true)
            × ((is_full s.c_password ≡ true)
                × ((0 < s.c_port)
                    × ((is_full s.c_base_dir ≡ true) × (is_full s.c_path_to_compare ≡ true))))))

module _ {ℓ κ} {A : Type ℓ} (P : A → Type κ) where
  unfoldable pub IfSome : Option A → Type κ
  IfSome none = Unit
  IfSome (some a) = P a

bind-IfSome {ℓ ℓ' κ κ'} :
    {A : Type ℓ} {B : Type ℓ'} (P : A → Type κ) (Q : B → Type κ') (o : Option A)
    (next : A → Option B)
    → IfSome P o
    → ((a : A) → P a → IfSome Q (next a))
    → IfSome Q (o >>= next)
unfolding IfSome
bind-IfSome P Q none next h k = tt
bind-IfSome P Q (some a) next h k = k a h

any-IfSome {ℓ} : {A : Type ℓ} (o : Option A) → IfSome {ℓ, 0} (λ a. Unit) o
unfolding IfSome
any-IfSome none = tt
any-IfSome (some a) = tt

IsFull : Bytes → Type 0
unfolding is_full
IsFull s = is_full s ≡ true

full-IfSome : (o : Option Bytes) → IfSome IsFull (full o)
unfolding full IfSome IsFull is_full
full-IfSome none = tt
full-IfSome (some []) = tt
full-IfSome (some (c ∷ s)) = refl

positive-IfSome : (type : JsonType) (z : ℤ) → IfSome (λ n. 0 < n) (positive type z)
unfolding positive IfSome
positive-IfSome cjson_number (pos (suc n)) = omega arith
positive-IfSome cjson_number (pos zero) = tt
positive-IfSome cjson_number (negsuc n) = tt
positive-IfSome cjson_true z = tt
positive-IfSome cjson_false z = tt
positive-IfSome cjson_null z = tt
positive-IfSome cjson_string z = tt
positive-IfSome cjson_array z = tt
positive-IfSome cjson_object z = tt

module _ {ℓ} {J : Type ℓ} (cjson : CJson J) where
  full_text-IfSome : (j : J) (key : Bytes) → IfSome IsFull (full_text cjson j key)
  unfolding full_text
  full_text-IfSome j key =
      bind-IfSome (λ item. Unit) IsFull (cjson.get_object_item j key) _
        (any-IfSome (cjson.get_object_item j key)) (λ item h. full-IfSome (text_of cjson item))

  port_of-IfSome : (j : J) → IfSome (λ n. 0 < n) (port_of cjson j)
  unfolding port_of
  port_of-IfSome j =
      bind-IfSome (λ item. Unit) (λ n. 0 < n) (cjson.get_object_item j (codes "port")) _
        (any-IfSome (cjson.get_object_item j (codes "port")))
        (λ item h. positive-IfSome (cjson.json_type item) (cjson.valueint item))

  pub build_task_server_info-IfSome : (j : J) → IfSome IsServer (build_task_server_info cjson j)
  unfolding build_task_server_info IfSome IsServer IsFull
  build_task_server_info-IfSome j =
      bind-IfSome IsFull IsServer _ _ (full_text-IfSome j (codes "center")) (λ center p1.
        bind-IfSome IsFull IsServer _ _ (full_text-IfSome j (codes "host")) (λ host p2.
          bind-IfSome IsFull IsServer _ _ (full_text-IfSome j (codes "user")) (λ user p3.
            bind-IfSome IsFull IsServer _ _ (full_text-IfSome j (codes "password")) (λ password p4.
              bind-IfSome (λ n. 0 < n) IsServer _ _ (port_of-IfSome j)
                (λ port p5.
                  bind-IfSome (λ b. Unit) IsServer _ _ (any-IfSome (standard_of cjson j))
                    (λ standard p6.
                      bind-IfSome (λ r. Unit) IsServer _ _
                        (any-IfSome (
                          regexes_of cjson (cjson.get_object_item j (codes "excluded_file_regex"))))
                        (λ regexes p7.
                          bind-IfSome IsFull IsServer _ _
                            (full_text-IfSome j (codes "path_to_compare"))
                            (λ path p8.
                              bind-IfSome IsFull IsServer _ _
                                (full_text-IfSome j (codes "base_dir"))
                                (λ base_dir p9. (p1, (p2, (p3, (p4, (p5, (p9, p8)))))))))))))))
