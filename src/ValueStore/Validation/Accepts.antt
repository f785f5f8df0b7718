-- ===== src/ValueStore/Validation/Accepts.antt =====
-- The inspection ends, and accepts exactly the JSON values.
use fancy_kit.Common.{
  ℕ, zero, suc, ◌-◌, ◌≤◌, ◌≡◌, refl, sym, ap, subst, Bool, true, false, List, [], ◌∷◌, Option, none,
  some, length, get_elem?, if◌then◌else◌, if_cases, arith, Bool-cases, inl, inr,
}
use fancy_kit.ValueStore.Validation.{
  negative_zero, not_finite, finite, Value, null_value, other, text, boolean, number, object,
  JsObject, Target, root, visit, Walk, has, round, threw, inspected, cost, loop,
  inspect_object_value,
}
use fancy_kit.ValueStore.Validation.Kinds.{missing, missing_lt, get_elem?-lt, Ready}
use fancy_kit.ValueStore.Validation.Json.{is_json}
use fancy_kit.ValueStore.Validation.Children.{has-among, read_children-passes}
use fancy_kit.ValueStore.Validation.Rounds.{Fails, Ends, cost_pos, leaf, bad}
use fancy_kit.ValueStore.Validation.Objects.{object_Ends}

module _ (heap : List JsObject) (clone ordinary : Bool) where
  on_path :
      (r most : ℕ) (t : Target) (w : Walk)
      → 1 ≤ most
      → has r w.active ≡ true
      → Fails heap clone ordinary (visit (object r) t ∷ []) w most
  unfolding round
  on_path r most t w m h = bad heap clone ordinary (object r) t w most m λ rest. rw h refl

  -- With no place left off the path, an object is on the path or a proxy that throws.
  no_place :
      (r most : ℕ) (t : Target) (w : Walk) (found : Option JsObject)
      → get_elem? heap r ≡ found
      → missing (length heap) w.active ≤ 0
      → 1 ≤ most
      → has r w.active ≡ false
      → Fails heap clone ordinary (visit (object r) t ∷ []) w most
  unfolding round
  no_place r most t w none at m n h =
      bad heap clone ordinary (object r) t w most n λ rest. rw (h, at) refl
  no_place r most t w (some o) at m n h =
      absurd (omega (arith, missing_lt (length heap) r w.active (get_elem?-lt heap r o at) h))

  visited :
      (depth : ℕ) (v : Value) (t : Target) (w : Walk)
      → missing (length heap) w.active ≤ depth
      → Ready t w
      → Ends heap clone ordinary
          (is_json heap depth w.active v)
          (visit v t ∷ [])
          w
          (cost heap depth v)
  unfolding is_json round cost
  visited depth null_value t w m r =
      leaf heap clone ordinary null_value null_value t w _
        (cost_pos heap clone ordinary depth null_value) r λ rest. refl
  visited depth other t w m r =
      bad heap clone ordinary other t w _ (cost_pos heap clone ordinary depth other) λ rest. refl
  visited depth (text s) t w m r =
      leaf heap clone ordinary (text s) (text s) t w _ (cost_pos heap clone ordinary depth (text s))
        r λ rest. refl
  visited depth (boolean b) t w m r =
      leaf heap clone ordinary (boolean b) (boolean b) t w _
        (cost_pos heap clone ordinary depth (boolean b)) r λ rest. refl
  visited depth (number not_finite) t w m r =
      bad heap clone ordinary (number not_finite) t w _
        (cost_pos heap clone ordinary depth (number not_finite)) λ rest. refl
  visited depth (number negative_zero) t w m r =
      leaf heap clone ordinary (number negative_zero)
        (number (if clone then finite 0 else negative_zero)) t w _
        (cost_pos heap clone ordinary depth (number negative_zero)) r λ rest. refl
  visited depth (number (finite n)) t w m r =
      leaf heap clone ordinary (number (finite n)) (number (finite n)) t w _
        (cost_pos heap clone ordinary depth (number (finite n))) r λ rest. refl
  visited zero (object r) t w m ready = elim (Bool-cases (has r w.active)) [
    | inl h ↦ on_path r _ t w (cost_pos heap clone ordinary zero (object r)) h
    | inr h ↦
        no_place r _ t w (get_elem? heap r) refl m (cost_pos heap clone ordinary zero (object r)) h
  ]
  visited (suc depth) (object r) t w m ready = rw (sym (has-among r w.active)) (
      if_cases
        (λ (b : Bool).
          Ends heap clone ordinary b (visit (object r) t ∷ []) w (cost heap (suc depth) (object r)))
        (has r w.active)
        (λ h. on_path r _ t w (cost_pos heap clone ordinary (suc depth) (object r)) h)
        λ h.
          subst
            (λ b.
              Ends heap clone ordinary b (visit (object r) t ∷ []) w
                (cost heap (suc depth) (object r)))
            (read_children-passes (is_json heap depth (r ∷ w.active)) (get_elem? heap r))
            (object_Ends heap clone ordinary depth r t w (get_elem? heap r) refl h ready
              λ below v t' w' a ready'.
                subst
                  (λ path.
                    Ends heap clone ordinary (is_json heap depth path v) (visit v t' ∷ []) w'
                      (cost heap depth v))
                  a
                  (visited depth v t' w'
                    (rw a (omega (arith, missing_lt (length heap) r w.active below h))) ready')))

  start : Walk
  start = record { active = []; copies = []; result = null_value }

  missing_all : (n : ℕ) → missing n [] ≡ n
  missing_all zero = refl
  missing_all (suc n) = ap suc (missing_all n)

  answered :
      (v : Value) (b : Bool)
      → Ends heap clone ordinary b (visit v root ∷ []) start (cost heap (length heap) v)
      → (b ≡ true
          → (w : Walk) × (inspect_object_value heap clone ordinary v ≡ inspected w)
            × (w.active ≡ []))
        × (b ≡ false → inspect_object_value heap clone ordinary v ≡ threw)
  unfolding inspect_object_value start loop
  answered v true d = (
    λ e. (
      d.after,
      d.runs (suc (cost heap (length heap) v)) (suc (cost heap (length heap) v - d.rounds)) []
          (omega (arith, d.within)),
      d.kept,
    ),
    λ e. cc,
  )
  answered v false f = (
    λ e. cc,
    λ e.
        f.runs (suc (cost heap (length heap) v)) (suc (cost heap (length heap) v - f.rounds)) []
          (omega (arith, f.within)),
  )

  -- On every heap, cyclic ones included, `inspectObjectValue` ends within its fuel, whether it copies or
  -- not: it returns exactly on the JSON values, and then no object is left active; on any other value it
  -- throws.
  pub inspect_accepts :
      (v : Value)
      → (is_json heap (length heap) [] v ≡ true
          → (w : Walk) × (inspect_object_value heap clone ordinary v ≡ inspected w)
            × (w.active ≡ []))
        × (is_json heap (length heap) [] v ≡ false
            → inspect_object_value heap clone ordinary v ≡ threw)
  unfolding start
  inspect_accepts v =
      answered v (is_json heap (length heap) [] v)
        (visited (length heap) v root start (omega (arith, missing_all (length heap))) tt)
