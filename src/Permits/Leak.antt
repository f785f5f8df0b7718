-- ===== src/Permits/Leak.antt =====
-- Callers that acquire two permits at once through the path without waiting.
use fancy_kit.Common.{ℕ, zero, suc, ◌+◌, ◌≤◌, ◌<◌, ◌≡◌, refl, ap, ◌∙◌, true, false, [], arith}
use fancy_kit.Common.Int.{pos, ◌+ℤ◌, ◌-ℤ◌, ltb_ℤ}
use fancy_kit.Permits.{Permits, Acquired, releaser, waits, permits, acquire, release}

abbrev called : Permits × Acquired → Permits
called (p, releaser q) = release q p
called (p, waits id) = p

-- A caller acquires two permits and calls its releaser, so many times.
unfoldable pub rounds : ℕ → Permits → Permits
rounds zero p = p
rounds (suc n) p = called (acquire 2 (rounds n p))

-- A new semaphore but for the counter.
abbrev counting : ℕ → ℕ → Permits
counting limit n = record {
  limit = limit;
  counter = pos n;
  queue = [];
  scheduled = [];
  next_id = 0;
}

two_more : (n : ℕ) → pos n +ℤ pos 2 ≡ pos (n + 2)
unfolding ◌+ℤ◌
two_more n = ground arith

one_back : (n : ℕ) → pos (n + 2) -ℤ pos 1 ≡ pos (suc n)
unfolding ◌-ℤ◌
one_back n = ground arith

round_lem :
    (limit n : ℕ) → n < limit → called (acquire 2 (counting limit n)) ≡ counting limit (suc n)
unfolding acquire release
round_lem limit n h =
    let room : ltb_ℤ (pos n) (pos limit) ≡ true = ground (arith, h) in
    let held : ltb_ℤ (pos 0) (pos (n + 2)) ≡ true = ground arith in
    rw (room, two_more n) (rw (held, one_back n) refl)

rounds_lem : (limit n : ℕ) → n ≤ limit → rounds n (permits limit) ≡ counting limit n
unfolding rounds permits
rounds_lem limit zero h = refl
rounds_lem limit (suc n) h =
    ap (λ p. called (acquire 2 p)) (rounds_lem limit n (omega arith))
    ∙ round_lem limit n (omega arith)

-- After as many rounds as the limit, in each of which a caller acquires two permits and releases
-- them, nobody holds a permit or is about to, and still every call of `acquire` waits.
pub rounds_leak :
    (limit quantity : ℕ)
    → let p = rounds limit (permits limit) in
      (p.queue ≡ []) × (p.scheduled ≡ []) × ((acquire quantity p).1 ≡ waits 0)
unfolding acquire
rounds_leak limit quantity =
    let full : ltb_ℤ (pos limit) (pos limit) ≡ false = ground arith in
    rw (rounds_lem limit limit (omega arith)) (refl, refl, rw full refl)
