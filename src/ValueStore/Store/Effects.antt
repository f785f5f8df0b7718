-- ===== src/ValueStore/Store/Effects.antt =====
-- What a store does to its backend, and what it reads back.
use fancy_kit.Common.{ℕ, ◌≡◌, ◌≢◌, ◌⊎◌, inl, inr, refl, sym, ap, ◌∙◌, List, Option, none, some}
use fancy_kit.ValueStore.Errors.{
  ValueStoreErrorCode, Result, returns, throws, ◌>>=◌, invalid_key, invalid_value,
}
use fancy_kit.ValueStore.Validation.{Value, text, null_value, other, boolean, number, object}
use fancy_kit.ValueStore.Capture.{
  replied, ValueStore, sanitised, validate_value_key, validate_value_string,
}
use fancy_kit.ValueStore.Store.{
  read_reply, deserialized, serialized, read_logical_value, or_default, get_value,
  write_logical_value, set_value,
}

abbrev pub found : Option (List ℕ) → Value
found none = null_value
found (some v) = text v

abbrev pub as_value : Option (List ℕ) → Option Value
as_value none = none
as_value (some d) = some (text d)

default_once :
    (x : Result (Option (List ℕ))) (d : List ℕ)
    → (x >>= λ v. returns (or_default v (some d)))
      ≡ (x >>= (λ v. returns (or_default v none)) >>= λ v. returns (or_default v (some d)))
default_once (throws code) d = refl
default_once (returns none) d = refl
default_once (returns (some v)) d = refl

-- A store whose backend remembers a text for each key.
pub record Remembers {S : Type 0} (st : ValueStore S) (view : S → List ℕ → Option (List ℕ))
    : Type 0 where
  pub reads : (k : List ℕ) (s : S) → st.reader.get k s ≡ (s, replied (found (view s k)))
  pub writes : (k v : List ℕ) (s : S) → (st.set k v s).1 ≡ none
  pub same_key : (k v : List ℕ) (s : S) → view (st.set k v s).0 k ≡ some v
  pub other_key : (k j v : List ℕ) (s : S) → j ≢ k → view (st.set k v s).0 j ≡ view s j

module _ {S : Type 0} (st : ValueStore S) where
  -- The backend is written once, or not at all.
  abbrev pub WritesOnce : Value → Value → S → S × Result (Unit {0}) → Type 0
  WritesOnce key value s r =
      ((code : ValueStoreErrorCode) × (r ≡ (s, throws code)))
      ⊎ ((k : List ℕ) × (v : List ℕ) × (t : List ℕ) × (key ≡ text k)
          × (value ≡ text v)
          × (serialized st.reader.serializer k v ≡ returns t)
          × (r ≡ ((st.set k t s).0, sanitised (st.set k t s).1)))

  -- `setValue` leaves the backend alone and fails, or it sets the key once, to what the serializer gave for
  -- the value, and fails exactly if the backend does.
  pub set_value_writes :
      (key value : Value) (s : S) → WritesOnce key value s (set_value st key value s)
  unfolding set_value write_logical_value validate_value_key validate_value_string
  set_value_writes (text k) (text v) s = by_result (serialized st.reader.serializer k v) refl
    where
      by_result :
          (o : Result (List ℕ))
          → serialized st.reader.serializer k v ≡ o
          → WritesOnce (text k) (text v) s (set_value st (text k) (text v) s)
      by_result (throws code) e = inl (code, rw e refl)
      by_result (returns t) e = inr (k, v, t, refl, refl, e, rw e refl)
  set_value_writes (text k) null_value s = inl (invalid_value, refl)
  set_value_writes (text k) other s = inl (invalid_value, refl)
  set_value_writes (text k) (boolean b) s = inl (invalid_value, refl)
  set_value_writes (text k) (number n) s = inl (invalid_value, refl)
  set_value_writes (text k) (object o) s = inl (invalid_value, refl)
  set_value_writes null_value v s = inl (invalid_key, refl)
  set_value_writes other v s = inl (invalid_key, refl)
  set_value_writes (boolean b) v s = inl (invalid_key, refl)
  set_value_writes (number n) v s = inl (invalid_key, refl)
  set_value_writes (object o) v s = inl (invalid_key, refl)

  -- `getValue` with a default makes the same read as without one, and gives the default exactly where the
  -- other gives null.
  pub get_value_default :
      (key : Value) (d : List ℕ) (s : S)
      → let (s', result) = get_value st.reader key none s in
        get_value st.reader key (some (text d)) s
        ≡ (s', result >>= λ v. returns (or_default v (some d)))
  unfolding get_value validate_value_key validate_value_string
  get_value_default (text k) d s =
      let (s', x) = read_logical_value st.reader k s in ap (λ r. (s', r)) (default_once x d)
  get_value_default key d s = refl

  module _ (view : S → List ℕ → Option (List ℕ)) (memory : Remembers st view) where
    pub read_back :
        (k : List ℕ) (d : Option (List ℕ)) (s : S)
        → get_value st.reader (text k) (as_value d) s ≡ (
          s,
          read_reply st.reader.serializer k (replied (found (view s k))) >>= λ v.
              returns (or_default v d),
        )
    unfolding get_value read_logical_value validate_value_key validate_value_string
    read_back k none s = rw (memory.reads k s) refl
    read_back k (some d) s = rw (memory.reads k s) refl

    pub written :
        (k v t : List ℕ) (s : S)
        → serialized st.reader.serializer k v ≡ returns t
        → set_value st (text k) (text v) s ≡ ((st.set k t s).0, returns tt)
    unfolding set_value write_logical_value validate_value_key validate_value_string
    written k v t s e = rw e (ap (λ o. ((st.set k t s).0, sanitised o)) (memory.writes k t s))

    -- A text that `setValue` stores is what `getValue` returns, whatever the default, if the serializer
    -- gives the value back from what it made of it; and what is read of the other keys stays.
    pub set_value-get_value :
        (k v t : List ℕ) (s : S)
        → serialized st.reader.serializer k v ≡ returns t
        → deserialized st.reader.serializer k t ≡ returns (some v)
        → let (s', written) = set_value st (text k) (text v) s in
          (written ≡ returns tt)
          × ((d : Option (List ℕ))
              → get_value st.reader (text k) (as_value d) s' ≡ (s', returns (some v)))
          × ((j : List ℕ) (d : Option (List ℕ))
              → j ≢ k
              → (get_value st.reader (text j) (as_value d) s').1
                ≡ (get_value st.reader (text j) (as_value d) s).1)
    set_value-get_value k v t s e back =
        let w = written k v t s e in
        let after = ap (λ (p : S × Result (Unit {0})). p.0) w in
        let held : view (set_value st (text k) (text v) s).0 k ≡ some t =
          ap (λ x. view x k) after ∙ memory.same_key k t s in
        (
          ap (λ (p : S × Result (Unit {0})). p.1) w,
          λ d. read_back k d (set_value st (text k) (text v) s).0 ∙ rw (held, back) refl,
          λ j d n.
              let kept : view (set_value st (text k) (text v) s).0 j ≡ view s j =
                ap (λ x. view x j) after ∙ memory.other_key k j t s n in
              ap (λ (p : S × Result (Option (List ℕ))). p.1)
                (read_back j d (set_value st (text k) (text v) s).0)
              ∙ rw kept refl
              ∙ ap (λ (p : S × Result (Option (List ℕ))). p.1) (sym (read_back j d s)),
        )
