-- ===== src/BluePrint/Order.antt =====
-- The aspects of a route and the global ones are one list of guards of the handler.
use wfrest.Base.{
  ◌≡◌, refl, Bool, true, false, List, [], ◌∷◌, ◌++◌, if◌then◌else◌, Bool-cases, inl, inr, arith,
  ◌∙◌, ap, sym,
}
use wfrest.BluePrint.{Aspect, aop_before, aop_process, global_before, wrap_handler}

module _ {ℓ} {S : Type ℓ} where
  -- What runs behind a test: the next one, if it held.
  if_held : Bool × S → (S → Bool × S) → Bool × S
  if_held (true, s) next = next s
  if_held (false, s) next = (false, s)

  item_held :
      (next both : S → Bool × S) (global : List (Aspect S)) (r : Bool × S)
      → ((s : S) → both s ≡ if_held (next s) (aop_before global))
      → (elim r.0 [ true ↦ both r.1 | false ↦ (false, r.1) ])
        ≡ if_held (elim r.0 [ true ↦ next r.1 | false ↦ (false, r.1) ]) (aop_before global)
  unfolding if_held
  item_held next both global (true, s) law = law s
  item_held next both global (false, s) law = refl

  aop_before-append :
      (tp global : List (Aspect S)) (s : S)
      → aop_before (tp ++ global) s ≡ if_held (aop_before tp s) (aop_before global)
  unfolding aop_before if_held
  aop_before-append [] global s = refl
  aop_before-append (item ∷ tp) global s =
      item_held (aop_before tp) (aop_before (tp ++ global)) global (item.before s)
        (aop_before-append tp global)

  -- What `aop_process` does with the results of the tests.
  abbrev pub guarded : (S → S) → Bool × S → Bool × S
  guarded handler (true, s) = (true, handler s)
  guarded handler (false, s) = (false, s)

  if_held-guarded :
      (handler : S → S) (global : List (Aspect S)) (r : Bool × S)
      → let (ret2, s2) = aop_before global r.1 in
        ◌≡◌ {A = Bool × S}
          (if r.0 then (if ret2 then (true, handler s2) else (false, s2)) else (false, r.1))
          (guarded handler (if_held r (aop_before global)))
  unfolding if_held
  if_held-guarded handler global (true, s) = second (aop_before global s)
    where
      second :
          (r : Bool × S)
          → ◌≡◌ {A = Bool × S}
              (if r.0 then (true, handler r.1) else (false, r.1))
              (guarded handler r)
      second (true, s') = refl
      second (false, s') = refl
  if_held-guarded handler global (false, s) = refl

  -- For every handler, aspects of the route, global aspects and state: the `before` of the aspects
  -- of the route and then of the global ones run in order up to the first that fails; the handler
  -- runs, and the callback is added, if none fails.
  pub aop_process-append :
      (handler : S → S) (tp global : List (Aspect S)) (s : S)
      → aop_process handler tp global s ≡ guarded handler (aop_before (tp ++ global) s)
  unfolding aop_process
  aop_process-append handler tp global s =
      if_held-guarded handler global (aop_before tp s)
      ∙ ap (guarded handler) (sym (aop_before-append tp global s))

  global_before-aop_before :
      (global : List (Aspect S)) (s : S)
      → (aop_before global s).0 ≡ true
      → aop_before global s ≡ (true, global_before global s)
  unfolding aop_before global_before
  global_before-aop_before [] s h = refl
  global_before-aop_before (asp ∷ asps) s h = elim (Bool-cases (asp.before s).0) [
    | inl e ↦
        rw (e, aop_before)
          (global_before-aop_before asps (asp.before s).1 (rw (e, aop_before) at h))
    | inr e ↦ (let no : false ≡ true = rw (e, aop_before) at h in ground arith)
  ]

  -- For every handler, global aspects and state: where every `before` holds, the wrapped handler of
  -- a route without aspects does what `aop_process` does with none; where the first one fails,
  -- `aop_process` stops there, and the wrapped handler still runs the others and the handler.
  pub wrap_handler-aop_process :
      (handler : S → S) (asp : Aspect S) (asps : List (Aspect S)) (s : S)
      → ((aop_before (asp ∷ asps) s).0 ≡ true
          → aop_process handler [] (asp ∷ asps) s ≡ (true, wrap_handler handler (asp ∷ asps) s))
        × ((asp.before s).0 ≡ false
            → (aop_process handler [] (asp ∷ asps) s ≡ (false, (asp.before s).1))
              × (wrap_handler handler (asp ∷ asps) s
                  ≡ handler (global_before asps (asp.before s).1)))
  unfolding wrap_handler
  wrap_handler-aop_process handler asp asps s = (
    λ h.
        aop_process-append handler [] (asp ∷ asps) s
        ∙ ap (guarded handler) (global_before-aop_before (asp ∷ asps) s h),
    λ h. (
      aop_process-append handler [] (asp ∷ asps) s ∙ ap (guarded handler) (fails h),
      unfold global_before in refl,
    ),
  )
    where
      fails : (asp.before s).0 ≡ false → aop_before (asp ∷ asps) s ≡ (false, (asp.before s).1)
      fails h = unfold aop_before in rw h refl
