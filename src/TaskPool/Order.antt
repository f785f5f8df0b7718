-- ===== src/TaskPool/Order.antt =====
-- mapAllTasksWithConcurrencyLimit: the results in the map and their order by key.
use fancy_kit.Common.{
  ℕ, suc, ◌≤◌, ◌<◌, arith, ◌≡◌, ◌≢◌, refl, sym, ap, ap₂, ◌∙◌, subst, true, false, List, [], ◌∷◌,
  ◌++◌, none, some, length, append_assoc, append-nil, leb, ◌==◌, ==_iff,
}
use fancy_kit.Common.Maps.{map_get, map_set-new}
use mathlib.Core.List.{Permᴰ}
use mathlib.Core.List.Permᴰ
use fancy_kit.TaskPool.{
  TaskResult, set_results, insert_entry, sort_entries, values, map_all_tasks, numbered,
}
use fancy_kit.TaskPool.Yields.{process_all_tasks_yields}

le_of_not : (m n : ℕ) → leb m n ≡ false → n < m
le_of_not m n h = ground arith

test_of_ne : (m n : ℕ) → m ≢ n → (m == n) ≡ false
test_of_ne m n h = ground arith

le_step : (n : ℕ) → leb n (suc n) ≡ true
le_step n = ground arith

module _ {A : Type 0} where
  insert_commute :
      (a b : ℕ × (ℕ × TaskResult A)) (es : List (ℕ × (ℕ × TaskResult A)))
      → a.0 ≢ b.0
      → insert_entry a (insert_entry b es) ≡ insert_entry b (insert_entry a es)
  insert_commute a b [] n = ground arith
  insert_commute a b (e ∷ es) n = let ih = insert_commute a b es n in ground arith

  abbrev Fresh : ℕ → List (ℕ × TaskResult A) → Type 0
  Fresh k [] = Unit
  Fresh k (v ∷ vs) = (v.0 ≢ k) × Fresh k vs

  abbrev NoTwice : List (ℕ × TaskResult A) → Type 0
  NoTwice [] = Unit
  NoTwice (v ∷ vs) = Fresh v.0 vs × NoTwice vs

  Fresh-perm : {xs ys : List (ℕ × TaskResult A)} → (k : ℕ) → Permᴰ xs ys → Fresh k xs → Fresh k ys
  Fresh-perm k Permᴰ.nil f = f
  Fresh-perm k (Permᴰ.cons e d) (n, f) = (subst (λ v. v.0 ≢ k) e n, Fresh-perm k d f)
  Fresh-perm k (Permᴰ.swap e g) (n, (m, f)) =
      (subst (λ v. v.0 ≢ k) g m, (subst (λ v. v.0 ≢ k) e n, f))
  Fresh-perm k (Permᴰ.trans d g) f = Fresh-perm k g (Fresh-perm k d f)

  NoTwice-perm : {xs ys : List (ℕ × TaskResult A)} → Permᴰ xs ys → NoTwice xs → NoTwice ys
  NoTwice-perm Permᴰ.nil f = f
  NoTwice-perm (Permᴰ.cons {l₂ = ys} e d) (f, n) =
      (subst (λ v. Fresh v.0 ys) e (Fresh-perm _ d f), NoTwice-perm d n)
  NoTwice-perm (Permᴰ.swap {l = l} e g) ((n, f), (f', r)) = (
    (λ x. n (ap (λ v. v.0) g ∙ sym x ∙ sym (ap (λ v. v.0) e)), subst (λ v. Fresh v.0 l) g f'),
    (subst (λ v. Fresh v.0 l) e f, r),
  )
  NoTwice-perm (Permᴰ.trans d g) f = NoTwice-perm g (NoTwice-perm d f)

  abbrev entries : List (ℕ × TaskResult A) → List (ℕ × (ℕ × TaskResult A))
  entries [] = []
  entries (v ∷ vs) = (v.0, v) ∷ entries vs

  sort-perm :
      {xs ys : List (ℕ × TaskResult A)}
      → Permᴰ xs ys
      → NoTwice xs
      → sort_entries (entries xs) ≡ sort_entries (entries ys)
  sort-perm Permᴰ.nil n = refl
  sort-perm (Permᴰ.cons e d) (f, n) = ap₂ (λ v es. insert_entry (v.0, v) es) e (sort-perm d n)
  sort-perm (Permᴰ.swap {a = a} {b = b} {l = l} e g) ((n, f), r) =
      insert_commute (a.0, a) (b.0, b) (sort_entries (entries l)) (λ x. n (sym x))
      ∙ ap₂ (λ v w. insert_entry (v.0, v) (insert_entry (w.0, w) (sort_entries (entries l)))) g e
  sort-perm (Permᴰ.trans d g) n = sort-perm d n ∙ sort-perm g (NoTwice-perm d n)

  numbered-Fresh : (k idx : ℕ) (ts : List (TaskResult A)) → k ≤ idx → Fresh k (numbered idx ts)
  numbered-Fresh k idx [] h = tt
  numbered-Fresh k idx (t ∷ ts) h =
      (λ e. omega (arith, e, h), numbered-Fresh k (suc idx) ts (omega arith))

  numbered-NoTwice : (idx : ℕ) (ts : List (TaskResult A)) → NoTwice (numbered idx ts)
  numbered-NoTwice idx [] = tt
  numbered-NoTwice idx (t ∷ ts) =
      (numbered-Fresh (suc idx) (suc idx) ts (omega arith), numbered-NoTwice (suc idx) ts)

  sort-numbered :
      (idx : ℕ) (ts : List (TaskResult A))
      → sort_entries (entries (numbered idx ts)) ≡ entries (numbered idx ts)
  sort-numbered idx [] = refl
  sort-numbered idx (t ∷ []) = refl
  sort-numbered idx (t ∷ u ∷ ts) =
      rw (sort-numbered (suc idx) (u ∷ ts)) (rw (le_step (suc idx)) refl)

  values-entries : (vs : List (ℕ × TaskResult A)) → values (entries vs) ≡ vs
  values-entries [] = refl
  values-entries (v ∷ vs) = ap (◌∷◌ v) (values-entries vs)

  Fresh-middle :
      (k : ℕ) (done : List (ℕ × TaskResult A)) (v : ℕ × TaskResult A) (vs : List (ℕ × TaskResult A))
      → Fresh k (done ++ v ∷ vs)
      → v.0 ≢ k
  Fresh-middle k [] v vs (n, f) = n
  Fresh-middle k (d ∷ done) v vs (n, f) = Fresh-middle k done v vs f

  absent :
      (done : List (ℕ × TaskResult A)) (v : ℕ × TaskResult A) (vs : List (ℕ × TaskResult A))
      → NoTwice (done ++ v ∷ vs)
      → map_get ◌==◌ v.0 (entries done) ≡ none
  absent [] v vs n = refl
  absent (d ∷ done) v vs (f, n) =
      rw (test_of_ne d.0 v.0 (λ e. Fresh-middle d.0 done v vs f (sym e))) (absent done v vs n)

  entries-append : (xs ys : List (ℕ × TaskResult A)) → entries (xs ++ ys) ≡ entries xs ++ entries ys
  entries-append [] ys = refl
  entries-append (x ∷ xs) ys = ap (◌∷◌ (x.0, x)) (entries-append xs ys)

  -- The map of results holds them in the order in which they came.
  set_results_new :
      (done vs : List (ℕ × TaskResult A))
      → NoTwice (done ++ vs)
      → set_results (entries done) vs ≡ entries (done ++ vs)
  set_results_new done [] n = rw (append-nil done) refl
  set_results_new done ((k, v) ∷ vs) n =
      rw (map_set-new ◌==◌ ==_iff k (k, v) (entries done) (absent done (k, v) vs n)) (
        subst (λ es. set_results es vs ≡ entries (done ++ (k, v) ∷ vs))
          (entries-append done ((k, v) ∷ []))
          (set_results_new (done ++ (k, v) ∷ []) vs
              (subst NoTwice (sym (append_assoc done ((k, v) ∷ []) vs)) n)
            ∙ ap entries (append_assoc done ((k, v) ∷ []) vs)))

  -- With a limit that is not 0, `mapAllTasksWithConcurrencyLimit` returns, whichever task wins each race,
  -- the results of all tasks in the order of the tasks, under the keys from 1; one more round than there
  -- are tasks is enough.
  pub map_all_tasks_in_order :
      (limit : ℕ) (choice : ℕ → ℕ)
      → 0 < limit
      → (fuel : ℕ) (tasks : List (TaskResult A)) → length tasks < fuel
      → map_all_tasks limit choice fuel tasks ≡ some (numbered 0 tasks)
  unfolding map_all_tasks
  map_all_tasks_in_order limit choice allowed fuel tasks h =
      let (ys, e, perm) = process_all_tasks_yields limit choice allowed fuel tasks h in
      let distinct = NoTwice-perm (Permᴰ.symm perm) (numbered-NoTwice 0 tasks) in
      rw
        (
          e,
          set_results_new [] ys distinct,
          sort-perm perm distinct,
          sort-numbered 0 tasks,
          values-entries (numbered 0 tasks),
        )
        refl
