-- ===== src/ApiTask/Outcome.antt =====
-- What every outcome of building a task is.
use wfrest.Base.{
  ℕ, ◌≡◌, refl, sym, subst, true, ◌==◌, List, [], ◌∷◌, map, Option, none, some, get_elem?, All,
  All-append, Bytes, codes, arith, inl, inr, Option-cases, Bool-cases,
}
use wfrest.ApiTask.{
  CJson, ApiTask, Built, built, invalid, asserted, and_then, handle_error, build_task_server_info,
  choose_std, build_task_from_json, set_uuid, read_uuid, text_of, read_result_type, add_regexes,
  read_regexes, add_servers, read_servers, is_object, is_array, is_number, is_result_type, ◌>>=◌,
}
use wfrest.ApiTask.Standard.{standards, is_standard, choose_std_lem}
use wfrest.ApiTask.Valid.{IsServer, IfSome, build_task_server_info-IfSome}

-- A predicate of the task that an outcome holds, and whether the assertion may fail.
pub Holds : (ApiTask → Type 0) → Type 0 → Built → Type 0
Holds P may_assert (built t) = P t
Holds P may_assert (invalid t) = Unit
Holds P may_assert asserted = may_assert

and_then-Holds :
    (P Q : ApiTask → Type 0) (may_assert : Type 0) (b : Built) (next : ApiTask → Built)
    → Holds P may_assert b
    → ((t : ApiTask) → P t → Holds Q may_assert (next t))
    → Holds Q may_assert (and_then b next)
unfolding Holds and_then
and_then-Holds P Q may_assert (built t) next h k = k t h
and_then-Holds P Q may_assert (invalid t) next h k = tt
and_then-Holds P Q may_assert asserted next h k = h

-- The task has only valid servers.
IsServed : ApiTask → Type 0
IsServed t = All IsServer t.t_server_info_arr

module _ {ℓ} {J : Type ℓ} (cjson : CJson J) (may_assert : Type 0) where
  read_result_type-Holds :
      (o : Option J) (t : ApiTask)
      → IsServed t
      → Holds IsServed may_assert (read_result_type cjson o t)
  unfolding read_result_type handle_error Holds IsServed
  read_result_type-Holds none t h = h
  read_result_type-Holds (some item) t h = elim (Bool-cases (is_number (cjson.json_type item))) [
    | inr is_not ↦ rw (is_not, read_result_type) tt
    | inl is_it ↦ elim (Bool-cases (is_result_type (cjson.valueint item))) [
      | inl zero_type ↦ rw (is_it, read_result_type) (rw zero_type h)
      | inr wrong ↦ rw (is_it, read_result_type) (rw wrong tt)
    ]
  ]

  add_regexes-Holds :
      (js : List J) (t : ApiTask) → IsServed t → Holds IsServed may_assert (add_regexes cjson js t)
  unfolding add_regexes handle_error Holds IsServed
  add_regexes-Holds [] t h = h
  add_regexes-Holds (j ∷ js) t h = elim (Option-cases (text_of cjson j)) [
    | inl e ↦ rw (e, add_regexes) tt
    | inr (text, e) ↦ rw (e, add_regexes) (add_regexes-Holds js _ h)
  ]

  read_regexes-Holds :
      (o : Option J) (t : ApiTask) → IsServed t → Holds IsServed may_assert (read_regexes cjson o t)
  unfolding read_regexes handle_error Holds
  read_regexes-Holds none t h = h
  read_regexes-Holds (some item) t h = elim (Bool-cases (is_array (cjson.json_type item))) [
    | inr is_not ↦ rw (is_not, read_regexes) tt
    | inl is_it ↦ rw (is_it, read_regexes) (add_regexes-Holds (cjson.items item) t h)
  ]

  add_servers-Holds :
      (js : List J) (t : ApiTask) → IsServed t → Holds IsServed may_assert (add_servers cjson js t)
  unfolding add_servers handle_error Holds IsServed IsServer IfSome
  add_servers-Holds [] t h = h
  add_servers-Holds (j ∷ js) t h = elim (Bool-cases (is_object (cjson.json_type j))) [
    | inr is_not ↦ rw (is_not, add_servers) tt
    | inl is_it ↦ elim (Option-cases (build_task_server_info cjson j)) [
      | inl e ↦ rw (is_it, add_servers) (rw e tt)
      | inr (server, e) ↦
          let valid : IsServer server =
            subst (IfSome IsServer) e (build_task_server_info-IfSome cjson j) in
          rw (is_it, add_servers)
            (rw e (
              add_servers-Holds js _
                (All-append IsServer t.t_server_info_arr (server ∷ []) h (valid, tt))))
    ]
  ]

  read_servers-Holds :
      (o : Option J) (t : ApiTask) → IsServed t → Holds IsServed may_assert (read_servers cjson o t)
  unfolding read_servers handle_error Holds
  read_servers-Holds none t h = tt
  read_servers-Holds (some item) t h = elim (Bool-cases (is_array (cjson.json_type item))) [
    | inr is_not ↦ rw (is_not, read_servers) tt
    | inl is_it ↦ rw (is_it, read_servers) (add_servers-Holds (cjson.items item) t h)
  ]

-- A task that may be compared: its servers are valid, one of them is the standard, at the index.
unfoldable pub IsTask : ApiTask → Type 0
unfolding IsServed
IsTask t =
    IsServed t
    × ((standards t.t_server_info_arr ≡ 1)
        × ((i : ℕ) × ((t.t_std_idx ≡ some i)
              × (get_elem? (map is_standard t.t_server_info_arr) i ≡ some true))))

choose_std-Holds :
    (may_assert : Type 0) (t : ApiTask) → IsServed t → Holds IsTask may_assert (choose_std t)
unfolding Holds IsTask handle_error
choose_std-Holds may_assert t h =
    let (none_there, (one_there, more_there)) = choose_std_lem t in
    let n = standards t.t_server_info_arr in
    elim (Bool-cases (n == 0)) [
      | inl zero_n ↦ rw (none_there (ground arith)) tt
      | inr some_n ↦ elim (Bool-cases (n == 1)) [
        | inl one_n ↦
            let one : n ≡ 1 = ground arith in
            let (i, (chosen, shown)) = one_there one in rw chosen (h, (one, (i, (refl, shown))))
        | inr many_n ↦ let (i, chosen) = more_there (ground arith) in rw chosen tt
      ]
    ]

-- The member `uuid` of a value is the empty text.
unfoldable pub HasEmptyUuid {ℓ} : {J : Type ℓ} → CJson J → J → Type 0
unfolding text_of
HasEmptyUuid cjson root = (cjson.get_object_item root (codes "uuid") >>= text_of cjson) ≡ some []

set_uuid-Holds {ℓ} :
    {J : Type ℓ} (cjson : CJson J) (o : Option Bytes) (t : ApiTask)
    → IsServed t
    → Holds IsServed (o ≡ some []) (set_uuid cjson o t)
unfolding set_uuid handle_error Holds IsServed
set_uuid-Holds cjson none t h = tt
set_uuid-Holds cjson (some []) t h = refl
set_uuid-Holds cjson (some (c ∷ s)) t h = h

-- For every value that the parser gives and every task without servers: if the task is built, its
-- servers' texts have bytes and their ports are not 0, exactly one server is the standard, and the
-- index is that of it; if an assertion fails, the `uuid` of the value is the empty text.
pub build_task_from_json-IsTask {ℓ} :
    {J : Type ℓ} (cjson : CJson J) (root : J) (t : ApiTask)
    → t.t_server_info_arr ≡ []
    → Holds IsTask (HasEmptyUuid cjson root) (build_task_from_json cjson (some root) t)
unfolding build_task_from_json read_uuid HasEmptyUuid IsServed
build_task_from_json-IsTask cjson root t empty =
    let may_assert = HasEmptyUuid cjson root in
    let member = cjson.get_object_item root in
    let served : IsServed t = subst (All IsServer) (sym empty) tt in
    and_then-Holds IsServed IsTask may_assert _ choose_std
      (and_then-Holds IsServed IsServed may_assert _ _
        (and_then-Holds IsServed IsServed may_assert _ _
          (and_then-Holds IsServed IsServed may_assert _ _
            (set_uuid-Holds cjson (member (codes "uuid") >>= text_of cjson) t served)
            (λ u h. read_result_type-Holds cjson may_assert (member (codes "result_type")) u h))
          (λ u h. read_regexes-Holds cjson may_assert (member (codes "excluded_file_regex")) u h))
        (λ u h. read_servers-Holds cjson may_assert (member (codes "servers")) u h))
      (λ u h. choose_std-Holds may_assert u h)
