-- ===== src/ValueStore/WebStorage/Prefixes.antt =====
-- A prefix keeps what the storage remembers, and stores with different items apart.
use fancy_kit.Common.{ℕ, ◌≡◌, ◌≢◌, refl, sym, ap, ◌∙◌, List, ◌++◌, Option, none, some}
use fancy_kit.Common.Texts.{append_cancel}
use fancy_kit.ValueStore.Errors.{Result, returns}
use fancy_kit.ValueStore.Validation.{text}
use fancy_kit.ValueStore.Capture.{Reply, replied, Serializer, ValueStore}
use fancy_kit.ValueStore.Store.{get_value, set_value, serialized}
use fancy_kit.ValueStore.Store.Effects.{Remembers, found, as_value, read_back, written}
use fancy_kit.ValueStore.WebStorage.{checked_item, checked_call, storage_get, storage_set, prefixed}

checked_found : (o : Option (List ℕ)) → checked_item (replied (found o)) ≡ replied (found o)
checked_found none = refl
checked_found (some v) = refl

module _ {S : Type 0} (raw : ValueStore S) (view : S → List ℕ → Option (List ℕ))
    (memory : Remembers raw view) where
  pub prefixed-Remembers :
      (p : List ℕ) (z : Option Serializer) → Remembers (prefixed raw p z) (λ s k. view s (p ++ k))
  unfolding storage_get storage_set
  prefixed-Remembers p z = record {
    reads = λ k s.
        ap (λ (x : S × Reply). (x.0, checked_item x.1)) (memory.reads (p ++ k) s)
        ∙ ap (λ r. (s, r)) (checked_found (view s (p ++ k)));
    writes = λ k v s. ap checked_call (memory.writes (p ++ k) v s);
    same_key = λ k v s. memory.same_key (p ++ k) v s;
    other_key =
        λ k j v s n. memory.other_key (p ++ k) (p ++ j) v s (λ e. n (append_cancel p j k e));
  }

  -- Two stores over one storage that remembers its items: what one writes under a key is invisible to the
  -- other under every key that does not give the same item with its prefix, whatever the serializers.
  pub prefixes_apart :
      (p q k j v t : List ℕ) (z w : Option Serializer) (d : Option (List ℕ)) (s : S)
      → serialized z k v ≡ returns t
      → q ++ j ≢ p ++ k
      → let (s', written) = set_value (prefixed raw p z) (text k) (text v) s in
        (get_value (prefixed raw q w).reader (text j) (as_value d) s').1
        ≡ (get_value (prefixed raw q w).reader (text j) (as_value d) s).1
  unfolding storage_set
  prefixes_apart p q k j v t z w d s e n =
      let writer = prefixed raw p z in
      let reader = prefixed raw q w in
      let wrote = written writer (λ s k. view s (p ++ k)) (prefixed-Remembers p z) k v t s e in
      let s' = (set_value writer (text k) (text v) s).0 in
      let kept : view s' (q ++ j) ≡ view s (q ++ j) =
        ap (λ (x : S × Result (Unit {0})). view x.0 (q ++ j)) wrote
        ∙ memory.other_key (p ++ k) (q ++ j) t s n in
      let back = read_back reader (λ s k. view s (q ++ k)) (prefixed-Remembers q w) j d in
      ap (λ (x : S × Result (Option (List ℕ))). x.1) (back s')
      ∙ rw kept refl
      ∙ ap (λ (x : S × Result (Option (List ℕ))). x.1) (sym (back s))
