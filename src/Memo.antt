-- ===== src/Memo.antt =====
-- packages/octagonal-wheels/src/memory/memo.ts: the function that `memoWithMap` returns. A call is the
-- key of its arguments, computed by `keyFunction` or `getKey`; the promise that `fn` returns is a
-- number, the number of the call to `fn`.
pub mod Shared
pub mod Between
mod Tests
use fancy_kit.Common.{
  ℕ, suc, Bool, true, false, List, [], ◌∷◌, Option, none, some, length, ltb, ◌==◌, if◌then◌else◌,
}
use fancy_kit.Common.Maps.{map_get, map_delete, map_set, map_refresh}

pub record Memo {ℓ} (K : Type ℓ) : Type ℓ where
  pub buffer_length : ℕ
  pub cache : List (K × ℕ)
  -- The number of calls to `fn`.
  pub called : ℕ

-- `none` is the thrown error.
pub memo_with_map {ℓ} : {K : Type ℓ} → ℕ → Option (Memo K)
memo_with_map buffer_length =
    if buffer_length == 0
    then none
    else some (record { buffer_length = buffer_length; cache = []; called = 0 })

module _ {ℓ} {K : Type ℓ} (same : K → K → Bool) where
  abbrev pub drop_oldest : List (K × ℕ) → List (K × ℕ)
  drop_oldest [] = []
  drop_oldest ((key, promise) ∷ rest) = map_delete same key ((key, promise) ∷ rest)

  abbrev pub recall : K → Memo K → Option ℕ → Memo K × ℕ
  recall key s (some promise) = (record s { cache = map_refresh same key promise s.cache }, promise)
  recall key s none =
      let cache = map_set same key s.called s.cache in
      (
        record s {
          cache = if ltb s.buffer_length (length cache) then drop_oldest cache else cache;
          called = suc s.called;
        },
        s.called,
      )

  pub call : K → Memo K → Memo K × ℕ
  call key s = recall key s (map_get same key s.cache)

  abbrev pub is_current : Option ℕ → ℕ → Bool
  is_current none promise = false
  is_current (some p) promise = p == promise

  -- The `catch` of a promise: it is forgotten unless another one stands under its key.
  pub rejected : K → ℕ → Memo K → Memo K
  rejected key promise s =
      if is_current (map_get same key s.cache) promise
      then record s { cache = map_delete same key s.cache }
      else s
