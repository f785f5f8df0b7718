-- ===== src/ValueStore/Validation/Objects.antt =====
-- An object that is entered: its children are visited and it is left.
use fancy_kit.Common.{
  and_then, ℕ, suc, ◌+◌, ◌<◌, ◌≡◌, refl, ap, ◌∙◌, Bool, true, false, List, [], ◌∷◌, ◌++◌, map,
  Option, none, some, length, get_elem?, if◌then◌else◌, if_cases, arith,
}
use fancy_kit.ValueStore.Validation.{
  Value, object, JsObject, ChildKey, Kind, read_children, Copy, Target, nowhere, child_of, Task,
  visit, leave, Walk, has, delete, fits, child_task, enter, round, go_on, sum_cost, cost,
}
use fancy_kit.ValueStore.Validation.Kinds.{
  every, get_elem?-lt, kind_of, kind_at, Grows, Ready, Ready-Grows, assigned, kind-append,
  kind-last, AllFit, read_children-AllFit, delete_first,
}
use fancy_kit.ValueStore.Validation.Json.{is_json}
use fancy_kit.ValueStore.Validation.Rounds.{go, Ends, one_step, bad, chain}

module _ (heap : List JsObject) (clone ordinary : Bool) where
  -- What `inspect_object_value` does to one value.
  abbrev pub Inspects : ℕ → List ℕ → Type 0
  Inspects depth path =
      (v : Value) (t : Target) (w : Walk)
      → w.active ≡ path
      → Ready t w
      → Ends heap clone ordinary (is_json heap depth path v) (visit v t ∷ []) w (cost heap depth v)

  child_Ready :
      (w : Walk) (at : ℕ) (kind : Kind) (key : ChildKey)
      → (clone ≡ true → kind_at w at ≡ some kind)
      → fits kind key ≡ true
      → Ready (if clone then child_of at key else nowhere) w
  child_Ready w at kind key h f =
      if_cases (λ (t : Target). Ready t w) clone (λ e. (kind, h e, f)) λ e. tt

  children_Ends :
      (depth at : ℕ) (path : List ℕ) (kind : Kind) (cs : List (ChildKey × Value)) (w : Walk)
      → Inspects depth path
      → w.active ≡ path
      → (clone ≡ true → kind_at w at ≡ some kind)
      → AllFit kind cs
      → Ends heap clone ordinary
          (every (is_json heap depth path) (some cs))
          (map (child_task heap clone ordinary at) cs)
          w
          (sum_cost heap (cost heap depth) (some cs))
  children_Ends depth at path kind [] w ih a h f = record {
    rounds = 0;
    after = w;
    within = omega arith;
    kept = refl;
    grows = λ i k e. e;
    runs = λ total fuel rest x.
        ap (λ n. go heap clone ordinary n rest w) {x = total} {y = fuel} (omega (arith, x));
  }
  children_Ends depth at path kind ((key, v) ∷ cs) w ih a h (f, fs) =
      let t = if clone then child_of at key else nowhere in
      chain heap clone ordinary (visit v t) (map (child_task heap clone ordinary at) cs) w
        (cost heap depth v) (sum_cost heap (cost heap depth) (some cs)) (is_json heap depth path v)
        (every (is_json heap depth path) (some cs)) (ih v t w a (child_Ready w at kind key h f))
        λ d.
          children_Ends depth at path kind cs d.after ih (d.kept ∙ a) (λ e. d.grows at kind (h e))
            fs

  leave_Done :
      (r : ℕ) (w : Walk) (path : List ℕ)
      → w.active ≡ r ∷ path
      → (total fuel : ℕ) (rest : List Task) → total ≡ 1 + fuel
      → go heap clone ordinary total (leave r ∷ rest) w
        ≡ go heap clone ordinary fuel rest (record w { active = path })
  unfolding round
  leave_Done r w path a total fuel rest n =
      one_step heap clone ordinary total fuel (leave r) rest w n
      ∙ ap (λ l. go heap clone ordinary fuel rest (record w { active = l }))
          (ap (delete r) a ∙ delete_first r path)

  abbrev copied : Walk → Copy → Walk
  copied w c = record w { copies = if clone then w.copies ++ c ∷ [] else w.copies }

  copied-Grows : (w : Walk) (c : Copy) → Grows w (copied w c)
  copied-Grows w c i k h =
      if_cases (λ (cs : List Copy). kind_of (get_elem? cs i) ≡ some k) clone
        (λ e. kind-append w.copies c i k h) λ e. h

  entered_by :
      (r most : ℕ) (t : Target) (tasks : List Task) (w w' : Walk) (b : Bool)
      → ((rest : List Task)
          → round heap clone ordinary (visit (object r) t) rest w
            ≡ some (tasks ++ leave r ∷ rest, record w' { active = r ∷ w'.active }))
      → w'.active ≡ w.active
      → Grows w w'
      → Ends heap clone ordinary b tasks (record w' { active = r ∷ w'.active }) most
      → Ends heap clone ordinary b (visit (object r) t ∷ []) w (suc (suc most))
  entered_by r most t tasks w w' true e a g x = record {
    rounds = 1 + (x.rounds + 1);
    after = record x.after { active = w.active };
    within = omega (arith, x.within);
    kept = refl;
    grows = λ i k h. x.grows i k (g i k h);
    runs = λ total fuel rest n.
        one_step heap clone ordinary total (x.rounds + (1 + fuel)) (visit (object r) t) rest w
          (omega (arith, n))
        ∙ (ap (go_on (go heap clone ordinary (x.rounds + (1 + fuel)))) (e rest)
            ∙ (x.runs (x.rounds + (1 + fuel)) (1 + fuel) (leave r ∷ rest) refl
                ∙ leave_Done r x.after w.active (x.kept ∙ ap (◌∷◌ r) a) (1 + fuel) fuel rest refl));
  }
  entered_by r most t tasks w w' false e a g x = record {
    rounds = 1 + x.rounds;
    within = omega (arith, x.within);
    runs = λ total fuel rest n.
        one_step heap clone ordinary total (x.rounds + fuel) (visit (object r) t) rest w
          (omega (arith, n))
        ∙ (ap (go_on (go heap clone ordinary (x.rounds + fuel))) (e rest)
            ∙ x.runs (x.rounds + fuel) fuel (leave r ∷ rest) refl);
  }

  entered :
      (r depth : ℕ) (t : Target) (w : Walk) (o : JsObject) (cs : List (ChildKey × Value))
      → Ready t w
      → Inspects depth (r ∷ w.active)
      → AllFit o.kind cs
      → ((rest : List Task)
          → round heap clone ordinary (visit (object r) t) rest w
            ≡ enter heap clone ordinary r t rest w o cs)
      → Ends heap clone ordinary
          (every (is_json heap depth (r ∷ w.active)) (some cs))
          (visit (object r) t ∷ [])
          w
          (suc (suc (sum_cost heap (cost heap depth) (some cs))))
  entered r depth t w o cs ready ih fs e =
      let at = length w.copies in
      let fresh : Copy = record { kind = o.kind; ordinary_prototype = ordinary; entries = [] } in
      let made = copied w fresh in
      let copy = object (if clone then at else r) in
      let grown = copied-Grows w fresh in
      let (w', put, a, g) = assigned t copy made (Ready-Grows t w made grown ready) in
      let stacked : Walk = record w' { active = r ∷ w'.active } in
      entered_by r (sum_cost heap (cost heap depth) (some cs)) t
        (map (child_task heap clone ordinary at) cs) w w'
        (every (is_json heap depth (r ∷ w.active)) (some cs))
        (λ rest.
          e rest
          ∙ ap
              (λ x. and_then x λ w'. some (
                map (child_task heap clone ordinary at) cs ++ (leave r ∷ rest),
                record w' { active = r ∷ w'.active },
              ))
              put)
        a (λ i k h. g i k (grown i k h))
        (children_Ends depth at (r ∷ w.active) o.kind cs stacked ih (ap (◌∷◌ r) a)
          (λ yes_clone. g at o.kind (rw yes_clone (kind-last w.copies fresh))) fs)

  opened :
      (depth r : ℕ) (t : Target) (w : Walk) (o : JsObject) (cs : Option (List (ChildKey × Value)))
      → read_children o ≡ cs
      → get_elem? heap r ≡ some o
      → has r w.active ≡ false
      → Ready t w
      → Inspects depth (r ∷ w.active)
      → Ends heap clone ordinary
          (every (is_json heap depth (r ∷ w.active)) cs)
          (visit (object r) t ∷ [])
          w
          (suc (suc (sum_cost heap (cost heap depth) cs)))
  unfolding round
  opened depth r t w o none c at free ready ih =
      bad heap clone ordinary (object r) t w (suc (suc 0)) (omega arith)
        λ rest. rw (free, at, c) refl
  opened depth r t w o (some cs) c at free ready ih =
      entered r depth t w o cs ready ih (read_children-AllFit o cs c) λ rest. rw (free, at, c) refl

  pub object_Ends :
      (depth r : ℕ) (t : Target) (w : Walk) (found : Option JsObject)
      → get_elem? heap r ≡ found
      → has r w.active ≡ false
      → Ready t w
      → (r < length heap → Inspects depth (r ∷ w.active))
      → Ends heap clone ordinary
          (every (is_json heap depth (r ∷ w.active)) (and_then found read_children))
          (visit (object r) t ∷ [])
          w
          (suc (suc (sum_cost heap (cost heap depth) (and_then found read_children))))
  unfolding round
  object_Ends depth r t w none at free ready ih =
      bad heap clone ordinary (object r) t w (suc (suc 0)) (omega arith) λ rest. rw (free, at) refl
  object_Ends depth r t w (some o) at free ready ih =
      opened depth r t w o (read_children o) refl at free ready (ih (get_elem?-lt heap r o at))
