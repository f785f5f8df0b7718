-- ===== src/ValueStore/Validation/Rounds.antt =====
-- Tasks that are done or throw within a number of rounds, and how they follow one another.
use fancy_kit.Common.{
  and_then, ℕ, zero, suc, ◌+◌, ◌≤◌, ◌≡◌, refl, ap, ◌∙◌, subst, Bool, true, false, ◌&&◌, List, [],
  ◌∷◌, ◌++◌, none, some, arith,
}
use fancy_kit.ValueStore.Validation.{
  Value, null_value, other, text, boolean, number, object, JsObject, Target, Task, visit, Walk,
  assign, round, Inspected, threw, go_on, cost, loop,
}
use fancy_kit.ValueStore.Validation.Kinds.{Grows, Ready, assigned}

module _ (heap : List JsObject) (clone ordinary : Bool) where
  abbrev pub go : ℕ → List Task → Walk → Inspected
  go = loop heap clone ordinary

  -- The tasks on top of the stack are done within a number of rounds.
  pub record Done (tasks : List Task) (w : Walk) (most : ℕ) : Type 0 where
    pub rounds : ℕ
    pub after : Walk
    pub within : rounds ≤ most
    pub kept : after.active ≡ w.active
    pub grows : Grows w after
    pub runs :
        (total fuel : ℕ) (rest : List Task)
        → total ≡ rounds + fuel
        → go total (tasks ++ rest) w ≡ go fuel rest after

  -- They throw.
  pub record Fails (tasks : List Task) (w : Walk) (most : ℕ) : Type 0 where
    pub rounds : ℕ
    pub within : rounds ≤ most
    pub runs :
        (total fuel : ℕ) (rest : List Task)
        → total ≡ rounds + fuel
        → go total (tasks ++ rest) w ≡ threw

  abbrev pub Ends : Bool → List Task → Walk → ℕ → Type 0
  Ends true tasks w most = Done tasks w most
  Ends false tasks w most = Fails tasks w most

  pub one_step :
      (total fuel : ℕ) (task : Task) (rest : List Task) (w : Walk)
      → total ≡ 1 + fuel
      → go total (task ∷ rest) w ≡ go_on (go fuel) (round heap clone ordinary task rest w)
  unfolding loop
  one_step total fuel task rest w e =
      subst (λ n. go n (task ∷ rest) w ≡ go_on (go fuel) (round heap clone ordinary task rest w))
        {x = suc fuel} {y = total} (omega (arith, e)) refl

  pub cost_pos : (depth : ℕ) (v : Value) → 1 ≤ cost heap depth v
  unfolding cost
  cost_pos zero v = omega arith
  cost_pos (suc depth) (object r) = omega arith
  cost_pos (suc depth) null_value = omega arith
  cost_pos (suc depth) other = omega arith
  cost_pos (suc depth) (text s) = omega arith
  cost_pos (suc depth) (boolean b) = omega arith
  cost_pos (suc depth) (number x) = omega arith

  pub leaf :
      (v v' : Value) (t : Target) (w : Walk) (most : ℕ)
      → 1 ≤ most
      → Ready t w
      → ((rest : List Task)
          → round heap clone ordinary (visit v t) rest w
            ≡ and_then (assign t v' w) λ w'. some (rest, w'))
      → Done (visit v t ∷ []) w most
  leaf v v' t w most m r e =
      let (w', at, a, g) = assigned t v' w r in
      record {
        rounds = 1;
        after = w';
        within = m;
        kept = a;
        grows = g;
        runs = λ total fuel rest n.
            one_step total fuel (visit v t) rest w n
            ∙ ap (go_on (go fuel)) (e rest ∙ ap (λ o. and_then o λ x. some (rest, x)) at);
      }

  pub bad :
      (v : Value) (t : Target) (w : Walk) (most : ℕ)
      → 1 ≤ most
      → ((rest : List Task) → round heap clone ordinary (visit v t) rest w ≡ none)
      → Fails (visit v t ∷ []) w most
  bad v t w most m e = record {
    rounds = 1;
    within = m;
    runs = λ total fuel rest n.
        one_step total fuel (visit v t) rest w n ∙ ap (go_on (go fuel)) (e rest);
  }

  pub chain_done :
      (task : Task) (tasks : List Task) (w : Walk) (m n : ℕ) (b : Bool) (d : Done (task ∷ []) w m)
      → Ends b tasks d.after n
      → Ends b (task ∷ tasks) w (m + n)
  chain_done task tasks w m n true d e = record {
    rounds = d.rounds + e.rounds;
    after = e.after;
    within = omega (arith, d.within, e.within);
    kept = e.kept ∙ d.kept;
    grows = λ i k h. e.grows i k (d.grows i k h);
    runs = λ total fuel rest x.
        d.runs total (e.rounds + fuel) (tasks ++ rest) (omega (arith, x))
        ∙ e.runs (e.rounds + fuel) fuel rest refl;
  }
  chain_done task tasks w m n false d e = record {
    rounds = d.rounds + e.rounds;
    within = omega (arith, d.within, e.within);
    runs = λ total fuel rest x.
        d.runs total (e.rounds + fuel) (tasks ++ rest) (omega (arith, x))
        ∙ e.runs (e.rounds + fuel) fuel rest refl;
  }

  pub chain :
      (task : Task) (tasks : List Task) (w : Walk) (m n : ℕ) (b c : Bool)
      → Ends b (task ∷ []) w m
      → ((d : Done (task ∷ []) w m) → Ends c tasks d.after n)
      → Ends (b && c) (task ∷ tasks) w (m + n)
  chain task tasks w m n true c d next = chain_done task tasks w m n c d (next d)
  chain task tasks w m n false c f next = record {
    rounds = f.rounds;
    within = omega (arith, f.within);
    runs = λ total fuel rest x. f.runs total fuel (tasks ++ rest) x;
  }
