-- ===== src/Permits/Counted.antt =====
-- The count of a semaphore whose callers take one permit each.
use mathlib.Core.List.{cons-ne-nil}
use fancy_kit.Common.{
  ℕ, suc, ◌+◌, ◌≤◌, ◌<◌, ◌≡◌, ◌≢◌, refl, sym, ap, subst, ◌∙◌, ◌⊎◌, inl, inr, true, false, List, [],
  ◌∷◌, ◌++◌, Option, none, some, arith, if_cases, length, length-append, Bool-cases,
}
use fancy_kit.Common.Int.{ℤ, pos, ◌+ℤ◌, ◌-ℤ◌, ltb_ℤ}
use fancy_kit.Permits.{release_in, resume_in}
use fancy_kit.Permits.{Waiter, Permits, Acquired, releaser, waits, acquire, try_acquire, release}

abbrev pub hand_out : List ℕ → Acquired → List ℕ
hand_out holders (releaser q) = q ∷ holders
hand_out holders (waits id) = holders

abbrev pub hand_over : List ℕ → Option ℕ → List ℕ
hand_over holders none = holders
hand_over holders (some q) = q ∷ holders

abbrev pub Ones : List ℕ → Type 0
Ones [] = Unit
Ones (q ∷ qs) = (q ≡ 1) × Ones qs

abbrev pub Singles : List Waiter → Type 0
Singles [] = Unit
Singles (w ∷ ws) = (w.quantity ≡ 1) × Singles ws

-- The counter counts the holders and the waiters on their way to be holders.
pub record Counted (limit : ℕ) (p : Permits) (holders : ℕ) : Type 0 where
  pub bound : p.limit ≡ limit
  pub counter : p.counter ≡ pos (holders + length p.scheduled)
  pub within : holders + length p.scheduled ≤ limit
  pub full : p.queue ≢ [] → holders + length p.scheduled ≡ limit
  pub queued : Singles p.queue
  pub scheduled : Singles p.scheduled

pub Singles-append :
    (ws : List Waiter) (w : Waiter) → Singles ws → w.quantity ≡ 1 → Singles (ws ++ w ∷ [])
Singles-append [] w s e = (e, tt)
Singles-append (x ∷ xs) w (d, s) e = (d, Singles-append xs w s e)

pub room-lt : (z : ℤ) (m l : ℕ) → z ≡ pos m → ltb_ℤ z (pos l) ≡ true → m < l
room-lt z m l e h = ground arith

pub full_le : (z : ℤ) (m l : ℕ) → z ≡ pos m → ltb_ℤ z (pos l) ≡ false → l ≤ m
full_le z m l e h = ground arith

pub one_more : (z : ℤ) (m : ℕ) → z ≡ pos m → z +ℤ pos 1 ≡ pos (suc m)
unfolding ◌+ℤ◌
one_more z m e = rw e (ground arith)

pub one_less : (z : ℤ) (m n : ℕ) → z ≡ pos m → m ≡ suc n → z -ℤ pos 1 ≡ pos n
unfolding ◌-ℤ◌
one_less z m n e f = rw e (ground arith)

-- A free permit is taken when nobody waits.
pub take-Counted :
    (limit n : ℕ) (p : Permits)
    → Counted limit p n
    → ltb_ℤ p.counter (pos p.limit) ≡ true
    → Counted limit (record p { counter = p.counter +ℤ pos 1 }) (suc n)
take-Counted limit n p v room =
    let less : n + length p.scheduled < limit =
      omega (arith, room-lt p.counter _ p.limit v.counter room, v.bound) in
    record {
      bound = v.bound;
      counter = one_more p.counter _ v.counter ∙ ap pos (omega arith);
      within = omega (arith, less);
      full = λ h. absurd (omega (arith, less, v.full h));
      queued = v.queued;
      scheduled = v.scheduled;
    }

pub wait-Counted :
    (limit n : ℕ) (p : Permits)
    → Counted limit p n
    → ltb_ℤ p.counter (pos p.limit) ≡ false
    → Counted limit (acquire 1 p).0 n × ((acquire 1 p).1 ≡ waits p.next_id)
unfolding acquire
wait-Counted limit n p v full = rw full (
  record {
    bound = v.bound;
    counter = v.counter;
    within = v.within;
    full = λ _. omega (arith, full_le p.counter _ p.limit v.counter full, v.bound, v.within);
    queued = Singles-append p.queue _ v.queued refl;
    scheduled = v.scheduled;
  },
  refl,
)

-- The holders after a call that may hand out a releaser.
abbrev pub Handed : ℕ → ℕ → Permits × Acquired → Type 0
Handed limit n (p, r) =
    ((r ≡ releaser 1) × Counted limit p (suc n)) ⊎ (((id : ℕ) × (r ≡ waits id)) × Counted limit p n)

pub acquire-Handed : (limit n : ℕ) (p : Permits) → Counted limit p n → Handed limit n (acquire 1 p)
unfolding acquire
acquire-Handed limit n p v = elim (Bool-cases (ltb_ℤ p.counter (pos p.limit))) [
  | inl room ↦ rw room (inl (refl, take-Counted limit n p v room))
  | inr full ↦ let (w, e) = wait-Counted limit n p v full in inr ((p.next_id, e), w)
]

pub try_acquire-Handed :
    (limit n : ℕ) (p : Permits) → Counted limit p n → Handed limit n (try_acquire 1 p)
unfolding try_acquire
try_acquire-Handed limit n p v = elim (Bool-cases (ltb_ℤ p.counter (pos p.limit))) [
  | inl room ↦ rw room (inl (refl, take-Counted limit n p v room))
  | inr full ↦ rw full (acquire-Handed limit n p v)
]

pub release_in-Counted :
    (limit n : ℕ) (p : Permits) (queue : List Waiter)
    → p.queue ≡ queue
    → Counted limit p (suc n)
    → Counted limit (release_in 1 p queue) n
release_in-Counted limit n p [] e v =
    let some_held : ltb_ℤ (pos 0) p.counter ≡ true = rw v.counter (ground arith) in
    rw some_held (record {
      bound = v.bound;
      counter = one_less p.counter _ _ v.counter (omega arith);
      within = omega (arith, v.within);
      full = λ h. absurd (h e);
      queued = v.queued;
      scheduled = v.scheduled;
    })
release_in-Counted limit n p (w ∷ rest) e v =
    let (q, s) = subst Singles e v.queued in
    let longer = length-append p.scheduled (w ∷ []) in
    record {
      bound = v.bound;
      counter = v.counter ∙ ap pos (omega (arith, longer));
      within = omega (arith, longer, v.within);
      full = λ _. omega (arith, longer, v.full (λ n. cons-ne-nil _ _ (sym e ∙ n)));
      queued = s;
      scheduled = Singles-append p.scheduled w v.scheduled q;
    }

pub release-Counted :
    (limit n : ℕ) (p : Permits) → Counted limit p (suc n) → Counted limit (release 1 p) n
unfolding release
release-Counted limit n p v = release_in-Counted limit n p p.queue refl v

pub resume_in-Counted :
    (limit : ℕ) (holders : List ℕ) (p : Permits) (scheduled : List Waiter)
    → p.scheduled ≡ scheduled
    → Ones holders
    → Counted limit p (length holders)
    → let (t, r) = resume_in p scheduled in
      Ones (hand_over holders r) × Counted limit t (length (hand_over holders r))
resume_in-Counted limit holders p [] e o v = (o, v)
resume_in-Counted limit holders p (w ∷ rest) e o v =
    let (q, s) = subst Singles e v.scheduled in
    let shorter : length p.scheduled ≡ suc (length rest) = ap length e in
    let u : Counted limit (record p { scheduled = rest }) (suc (length holders)) = record {
      bound = v.bound;
      counter = v.counter ∙ ap pos (omega (arith, shorter));
      within = omega (arith, shorter, v.within);
      full = λ h. omega (arith, shorter, v.full h);
      queued = v.queued;
      scheduled = s;
    } in
    if_cases
      (λ (x : Permits × Option ℕ).
        Ones (hand_over holders x.1) × Counted limit x.0 (length (hand_over holders x.1)))
      w.timed_out
      (λ _. (
        o,
        subst (λ q. Counted limit (release q (record p { scheduled = rest })) (length holders))
            (sym q) (release-Counted limit _ _ u),
      ))
      (λ _. ((q, o), u))
