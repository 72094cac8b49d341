-- ===== src/Compare/Walk/Queue.antt =====
-- Which directories are compared.
use mathlib.Core.List.{append_assoc, append-nil}
use wfrest.Base.{
  ℕ, suc, ◌+◌, ◌≤◌, ◌≡◌, refl, sym, ap, ◌∙◌, Bool, true, false, List, [], ◌∷◌, ◌++◌, map, none,
  some, ltb, if◌then◌else◌, length, Bytes, Bool-cases, inl, inr, arith,
}
use wfrest.Compare.Walk.{
  Listing, DiffJson, Walk, compare_dirs, add_dir, get_parent_dir, join_path, is_dots, enter_dir,
  enter_file, exe_sql_job_for_dir, regular, irregular, no_stat, ended, link_entry, dir_entry,
  file_entry,
}

-- The independent description: the places of the directories in `diffs`.
unfoldable pub dir_places : ℕ → List DiffJson → List ℕ
dir_places i [] = []
dir_places i (d ∷ diffs) =
    let rest = dir_places (suc i) diffs in if d.is_dir then i ∷ rest else rest

map-append {ℓ} :
    {A B : Type ℓ} (f : A → B) (xs ys : List A) → map f (xs ++ ys) ≡ map f xs ++ map f ys
map-append f [] ys = refl
map-append f (x ∷ xs) ys = ap (◌∷◌ (f x)) (map-append f xs ys)

abbrev pub places : List (Bytes × ℕ) → List ℕ
places = map (λ p. p.1)

-- The directories of the result that have been compared and those that are queued are all of them,
-- each once and in their order, and no batch is larger than the queue's bound.
unfoldable pub IsCollected : Walk → Type 0
unfolding dir_places
IsCollected w = (places (w.compared ++ w.dir_q) ≡ dir_places 0 w.diffs) × (length w.dir_q ≤ 1000)

dir_places-append :
    (i : ℕ) (diffs : List DiffJson) (d : DiffJson)
    → dir_places i (diffs ++ d ∷ [])
      ≡ dir_places i diffs ++ (if d.is_dir then (i + length diffs) ∷ [] else [])
unfolding dir_places
dir_places-append i [] d =
    let same : i ≡ i + 0 = omega arith in ap (λ k. if d.is_dir then k ∷ [] else []) same
dir_places-append i (c ∷ diffs) d =
    let next : suc i + length diffs ≡ i + suc (length diffs) = omega arith in
    let rest =
      dir_places-append (suc i) diffs d
      ∙ ap (λ k. dir_places (suc i) diffs ++ (if d.is_dir then k ∷ [] else [])) next in
    elim (Bool-cases c.is_dir) [
      | inl e ↦ rw (e, dir_places) (ap (◌∷◌ i) rest)
      | inr e ↦ rw (e, dir_places) rest
    ]

pub compare_dirs-IsCollected :
    (w : Walk)
    → places (w.compared ++ w.dir_q) ≡ dir_places 0 w.diffs
    → IsCollected (compare_dirs w)
unfolding IsCollected compare_dirs
compare_dirs-IsCollected w same =
    (ap places (append-nil (w.compared ++ w.dir_q)) ∙ same, omega arith)

enter_dir-IsCollected :
    (path : Bytes) (depth : ℕ) (name : Bytes) (w : Walk)
    → IsCollected w
    → IsCollected (enter_dir path depth name w)
unfolding IsCollected enter_dir add_dir
enter_dir-IsCollected path depth name w collected =
    let entry : DiffJson = record {
      name = name;
      dir = get_parent_dir depth path;
      is_dir = true;
      path = none;
    } in
    let queued : Bytes × ℕ = (join_path path name, length w.diffs) in
    let same : places (w.compared ++ (w.dir_q ++ queued ∷ []))
        ≡ dir_places 0 (w.diffs ++ entry ∷ []) =
      ap places (sym (append_assoc w.compared w.dir_q (queued ∷ [])))
      ∙ (map-append (λ p. p.1) (w.compared ++ w.dir_q) (queued ∷ [])
          ∙ (ap (λ ps. ps ++ length w.diffs ∷ []) collected.0
              ∙ (ap (λ k. dir_places 0 w.diffs ++ k ∷ []) (omega arith)
                  ∙ sym (dir_places-append 0 w.diffs entry)))) in
    elim (Bool-cases (ltb 1000 (length (w.dir_q ++ queued ∷ [])))) [
      | inl e ↦
          rw (e, add_dir)
            (compare_dirs-IsCollected
              (record w { diffs = w.diffs ++ entry ∷ []; dir_q = w.dir_q ++ queued ∷ [] }) same)
      | inr e ↦ rw (e, add_dir) (same, ground arith)
    ]

enter_file-IsCollected :
    (path : Bytes) (depth : ℕ) (name : Bytes) (w : Walk)
    → IsCollected w
    → IsCollected (enter_file path depth name w)
unfolding IsCollected enter_file
enter_file-IsCollected path depth name w collected =
    let entry : DiffJson = record {
      name = name;
      dir = get_parent_dir depth path;
      is_dir = false;
      path = some (join_path path name);
    } in
    (
      collected.0
          ∙ (sym (append-nil (dir_places 0 w.diffs)) ∙ sym (dir_places-append 0 w.diffs entry)),
      collected.1,
    )

if-IsCollected :
    (b : Bool) (v w : Walk) → IsCollected v → IsCollected w → IsCollected (if b then v else w)
if-IsCollected true v w h k = h
if-IsCollected false v w h k = k

-- For every directory's path, depth and entries, whatever can be opened and whatever `stat` says:
-- if the directories of the result so far have been compared or are queued, each once and in their
-- order, and the queue has at most 1000, then the same holds behind the walk, for the code that it
-- returns and for an error.
pub exe_sql_job_for_dir-IsCollected :
    (path : Bytes) (depth : ℕ) (opened : Bool) (listing : Listing) (w : Walk)
    → IsCollected w
    → IsCollected (exe_sql_job_for_dir path depth opened listing w).1
unfolding exe_sql_job_for_dir
exe_sql_job_for_dir-IsCollected path depth false listing w h = h
exe_sql_job_for_dir-IsCollected path depth true ended w h = h
exe_sql_job_for_dir-IsCollected path depth true (link_entry name listing) w h =
    exe_sql_job_for_dir-IsCollected path depth true listing w h
exe_sql_job_for_dir-IsCollected path depth true (file_entry name no_stat listing) w h = h
exe_sql_job_for_dir-IsCollected path depth true (file_entry name irregular listing) w h =
    exe_sql_job_for_dir-IsCollected path depth true listing w h
exe_sql_job_for_dir-IsCollected path depth true (file_entry name regular listing) w h =
    exe_sql_job_for_dir-IsCollected path depth true listing (enter_file path depth name w)
      (enter_file-IsCollected path depth name w h)
exe_sql_job_for_dir-IsCollected path depth true (dir_entry name opened below listing) w h =
    let entered = enter_dir path depth name w in
    let walked = (exe_sql_job_for_dir (join_path path name) (suc depth) opened below entered).1 in
    let below_h =
      exe_sql_job_for_dir-IsCollected (join_path path name) (suc depth) opened below entered
        (enter_dir-IsCollected path depth name w h) in
    exe_sql_job_for_dir-IsCollected path depth true listing (if is_dots name then w else walked)
      (if-IsCollected (is_dots name) w walked h below_h)
