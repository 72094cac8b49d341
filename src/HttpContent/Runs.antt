-- ===== src/HttpContent/Runs.antt =====
-- How the parser runs over a header's value, a part's content and a boundary.
use wfrest.Base.{
  ℕ, zero, suc, ◌+◌, ◌≡◌, refl, ap, ◌∙◌, Bool, true, false, not, ◌&&◌, [], ◌∷◌, ◌++◌, ◌==◌, length,
  get_or, take, drop, Bytes, arith,
}
use mathlib.Core.List.{append-nil, append_assoc}
use wfrest.MultiPartParser.{
  cr, is_last, State, s_start_boundary, s_header_value, s_header_value_almost_done, s_part_data,
  s_part_data_almost_boundary, s_part_data_boundary, s_part_data_almost_end, Parser, run, step,
}
use wfrest.HttpContent.{
  Userdata, mp_part_data_end, handle_data, part_data_end_cb, mp_header_value, mp_part_data,
  settings, header_value_cb, part_data_cb,
}

abbrev pub in_state : State → ℕ → Bytes → Bytes → Parser
in_state s i lookbehind b = record {
  index = i;
  state = s;
  lookbehind = lookbehind;
  multipart_boundary = b;
}

-- No byte of a string is a carriage return.
unfoldable pub no_cr : Bytes → Bool
no_cr [] = true
no_cr (c ∷ s) = not (c == cr) && no_cr s

not_last : (s : Bytes) (c : ℕ) (t : Bytes) → is_last (s ++ c ∷ t) ≡ false
not_last [] c t = refl
not_last (d ∷ s) c t = refl

no_cr-cons : (c : ℕ) (s : Bytes) → no_cr (c ∷ s) ≡ true → ((c == cr) ≡ false) × (no_cr s ≡ true)
unfolding no_cr
no_cr-cons c s h = (ground arith, ground arith)

-- A header's value up to the carriage return behind it.
pub run_value :
    (v t pending : Bytes) (i : ℕ) (lb b : Bytes) (u : Userdata)
    → no_cr v ≡ true
    → run settings pending (v ++ cr ∷ t) (in_state s_header_value i lb b) u
      ≡ run settings [] t
          (in_state s_header_value_almost_done i lb b)
          (record u { state = mp_header_value; header_value = u.header_value ++ (pending ++ v) })
unfolding run step header_value_cb no_cr
run_value [] t pending i lb b u h = rw (append-nil pending) refl
run_value (c ∷ v) t pending i lb b u h =
    let (byte, rest) = no_cr-cons c v h in
    rw (byte, run)
      (rw (not_last v cr t) (
        run_value v t (pending ++ c ∷ []) i lb b u rest
        ∙ rw (append_assoc pending (c ∷ []) v) refl))

pub run_data :
    (s t pending : Bytes) (i : ℕ) (lb b : Bytes) (u : Userdata)
    → no_cr s ≡ true
    → run settings pending (s ++ cr ∷ t) (in_state s_part_data i lb b) u
      ≡ run settings [] t
          (in_state s_part_data_almost_boundary i (cr ∷ []) b)
          (record u { state = mp_part_data; part_data = u.part_data ++ (pending ++ s) })
unfolding run step part_data_cb no_cr
run_data [] t pending i lb b u h = rw (append-nil pending) refl
run_data (c ∷ s) t pending i lb b u h =
    let (byte, rest) = no_cr-cons c s h in
    rw (byte, run)
      (rw (not_last s cr t) (
        run_data s t (pending ++ c ∷ []) i lb b u rest ∙ rw (append_assoc pending (c ∷ []) s) refl))

-- Where the rest of a string is known, so is the byte there.
drop-cons :
    (b : Bytes) (i c : ℕ) (post : Bytes)
    → drop i b ≡ c ∷ post
    → (get_or b i 0 ≡ c) × (drop (suc i) b ≡ post)
drop-cons [] zero c post e = (cc, cc)
drop-cons [] (suc i) c post e = (cc, cc)
drop-cons (d ∷ b) zero c post e = (cc, cc)
drop-cons (d ∷ b) (suc i) c post e = drop-cons b i c post e

length-drop :
    (b : Bytes) (i : ℕ) (c : ℕ) (post : Bytes)
    → drop i b ≡ c ∷ post
    → length b ≡ i + suc (length post)
length-drop [] zero c post e = cc
length-drop [] (suc i) c post e = cc
length-drop (d ∷ b) zero c post e =
    let same : length (d ∷ b) ≡ length (c ∷ post) = ap length e in ground arith
length-drop (d ∷ b) (suc i) c post e = let rest = length-drop b i c post e in ground arith

-- The rest of the first boundary.
pub run_start_boundary :
    (post t : Bytes) (i : ℕ) (lb b : Bytes) (u : Userdata)
    → drop i b ≡ post
    → i + length post ≡ length b
    → run settings [] (post ++ t) (in_state s_start_boundary i lb b) u
      ≡ run settings [] t (in_state s_start_boundary (length b) lb b) u
unfolding run step
run_start_boundary [] t i lb b u e n =
    ap (λ k. run settings [] t (in_state s_start_boundary k lb b) u) (ground arith)
run_start_boundary (c ∷ post) t i lb b u e n =
    let (here, rest) = drop-cons b i c post e in
    let short : (i == length b) ≡ false = ground arith in
    let short2 : (i == length b + 1) ≡ false = ground arith in
    let same : (c == c) ≡ true = ground arith in
    rw (short, run)
      (rw short2 (rw here (rw same (run_start_boundary post t (suc i) lb b u rest (ground arith)))))

-- What is looked behind after the boundary.
pub look_behind : Bytes → ℕ → Bytes → Bytes
look_behind lb i [] = lb
look_behind lb i (c ∷ post) = look_behind (take (2 + i) lb ++ c ∷ []) (suc i) post

-- The rest of a boundary behind a part.
pub run_boundary :
    (c : ℕ) (post t : Bytes) (i : ℕ) (lb b : Bytes) (u : Userdata)
    → drop i b ≡ c ∷ post
    → run settings [] ((c ∷ post) ++ t) (in_state s_part_data_boundary i lb b) u
      ≡ run settings [] t
          (in_state s_part_data_almost_end (length b) (look_behind lb i (c ∷ post)) b)
          (handle_data (record u { state = mp_part_data_end }))
unfolding run step look_behind part_data_end_cb
run_boundary c [] t i lb b u e =
    let (here, rest) = drop-cons b i c [] e in
    let last : suc i ≡ length b = let n = length-drop b i c [] e in ground arith in
    let final : (suc i == length b) ≡ true = ground arith in
    let same : (c == c) ≡ true = ground arith in
    rw (here, run)
      (rw same (
        rw final (
          ap
            (λ k.
              run settings [] t (in_state s_part_data_almost_end k (take (2 + i) lb ++ c ∷ []) b)
                (handle_data (record u { state = mp_part_data_end })))
            last)))
run_boundary c (d ∷ post) t i lb b u e =
    let (here, rest) = drop-cons b i c (d ∷ post) e in
    let n = length-drop b i c (d ∷ post) e in
    let further : (suc i == length b) ≡ false = ground arith in
    let same : (c == c) ≡ true = ground arith in
    rw (here, run)
      (rw same (rw further (run_boundary d post t (suc i) (take (2 + i) lb ++ c ∷ []) b u rest)))
