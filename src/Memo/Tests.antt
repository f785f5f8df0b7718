-- ===== src/Memo/Tests.antt =====
-- The memo on concrete calls, and its theorems at concrete inputs.
use fancy_kit.Common.{ℕ, ◌≡◌, ◌≢◌, refl, Bool, List, [], ◌∷◌, none, ◌==◌, ==_iff, arith}
use fancy_kit.Memo
use fancy_kit.Memo.{Memo, memo_with_map, call, rejected}
use fancy_kit.Memo.Shared.{Call, calls, rejects, step, run, run_within, rejected_retries}
use fancy_kit.Memo.Between.{Unrejected, call_shares}

program : Unit {0}
unfolding Memo.memo_with_map Memo.call Memo.rejected Memo.Shared.step Memo.Shared.run
program = tt

abbrev same : ℕ → ℕ → Bool
same a b = a == b

-- Two promises at most, of which that of key 7 is the oldest.
abbrev full : Memo ℕ
full = record { buffer_length = 2; cache = (7, 0) ∷ (8, 1) ∷ []; called = 2 }

no_room : memo_with_map {K = ℕ} 0 ≡ none
unfolding program
no_room = refl

-- A hit makes key 7 the newest, so that key 8 is forgotten for key 9.
hit_then_miss : (run same full (calls 7 ∷ calls 9 ∷ [])).cache ≡ (7, 0) ∷ (9, 2) ∷ []
unfolding program
hit_then_miss = refl

-- The late rejection of the promise 0 leaves the promise 2 of the same key alone.
late_rejection :
    (run same full (rejects 7 0 ∷ calls 7 ∷ rejects 7 0 ∷ [])).cache ≡ (8, 1) ∷ (7, 2) ∷ []
unfolding program
late_rejection = refl

-- The promise of key 8 is rejected, key 7 is called again and then key 5.
abbrev between : List (Call ℕ)
between = rejects 8 1 ∷ calls 7 ∷ calls 5 ∷ rejects 5 3 ∷ []

between-Unrejected : Unrejected 0 between
between-Unrejected = ((λ e. omega (arith, e)), ((λ e. omega (arith, e)), tt))

call_shares_example :
    let (t, promise) = call same 7 full in
    let u = run same t between in
    let (v, again) = call same 7 u in (again ≡ promise) × (v.called ≡ u.called)
unfolding program
call_shares_example =
    call_shares same ==_iff 7 full between (refl, (refl, tt)) (omega arith) between-Unrejected

abbrev first_promise : ℕ
first_promise = 0

rejected_retries_example :
    ((first_promise ≡ 0)
      → let (t, again) = call same 7 (rejected same 7 0 full) in (again ≡ 2) × (t.called ≡ 3))
    × (first_promise ≢ 0 → rejected same 7 0 full ≡ full)
rejected_retries_example =
    rejected_retries same ==_iff 7 first_promise 0 full (refl, (refl, tt)) refl
