-- ===== src/Inbox/Tests.antt =====
-- The inboxes on concrete calls, and their theorems at concrete inputs.
use fancy_kit.Common.{
  ℕ, zero, suc, ◌++◌, ◌≡◌, ◌<◌, ◌⊎◌, refl, [], ◌∷◌, true, false, Option, none, some, arith, length,
}
use fancy_kit.Common.Int.{pos, negsuc, ◌+ℤ◌, ◌-ℤ◌, ltb_ℤ}
use fancy_kit.Inbox
use fancy_kit.Inbox.{
  Inbox, Class, sync_inbox, inbox, inbox_with_event, Signal, ready_signal, Picked, not_available,
  item, Round, returned, waits, thrown,
}
use fancy_kit.Inbox.Holding.{Holding}
use fancy_kit.Inbox.Bounded.{Bounded, Becomes, Picks, try_post-Bounded, try_pick-Bounded}
use fancy_kit.Inbox.Rounds
use fancy_kit.Inbox.Rounds.{post, pick}
use fancy_kit.Inbox.Locks.{Live}
use fancy_kit.Inbox.Signals.{post_round-waits}
use fancy_kit.Inbox.Wakes.{
  posts, takes, run, step, Sleeps, picking, SettledSince, Blocked, run_wakes,
  try_cancel_post_strands,
}
use fancy_kit.Inbox.Event.{try_cancel_post_negative}

program : Unit {0}
unfolding Inbox.size Inbox.free Inbox.is_full Inbox.is_running_out Inbox.is_ready Inbox.state
    Inbox.masked Inbox.write Inbox.fix_idx Inbox.on_progress Inbox.on_posted Inbox.on_picked
    Inbox.notify_free Inbox.notify_ready Inbox.dispose Inbox.dispose_sync Inbox.try_post
    Inbox.try_pick Inbox.try_cancel_post Inbox.wait_for_free Inbox.wait_for_ready Rounds.post_round
    Rounds.post Rounds.pick_round Rounds.pick run step ◌+ℤ◌ ◌-ℤ◌
program = tt

-- An inbox of capacity 2 whose mask is 3, with the indices at these places.
abbrev placed : Class → ℕ → ℕ → (ℕ → Option ℕ) → Option ℕ → Inbox ℕ
placed class read write buffer lock = record {
  class = class;
  capacity = 2;
  buffer = buffer;
  write_idx = pos write;
  read_idx = pos read;
  wrap_around_count = 3;
  is_disposed = false;
  lock_full = lock;
  lock_ready = none;
  next_lock = 1;
  settled = [];
  processed = 0;
  reports = [];
}

-- Places 0 and 1 hold 5 and 6.
abbrev two_items : ℕ → Option ℕ
two_items zero = some 5
two_items (suc zero) = some 6
two_items _ = none

abbrev nothing : ℕ → Option ℕ
nothing _ = none

empty-Holding : (c : Class) → Holding (placed c 3 3 nothing none) 3 []
empty-Holding c = record {
  bits = 2;
  mask = refl;
  capacity = omega arith;
  fits = omega arith;
  read_idx = refl;
  write_idx = refl;
  items = tt;
}

full-Holding : (c : Class) (lock : Option ℕ) → Holding (placed c 3 5 two_items lock) 3 (5 ∷ 6 ∷ [])
full-Holding c lock = record {
  bits = 2;
  mask = refl;
  capacity = omega arith;
  fits = omega arith;
  read_idx = refl;
  write_idx = refl;
  items = (refl, (refl, tt));
}

empty-Bounded : Bounded (placed inbox 3 3 nothing none) []
empty-Bounded = record {
  plain = λ e. cc;
  read = 3;
  wrapped = omega arith;
  ring = empty-Holding inbox;
}

full-Bounded : (lock : Option ℕ) → Bounded (placed inbox 3 5 two_items lock) (5 ∷ 6 ∷ [])
full-Bounded lock = record {
  plain = λ e. cc;
  read = 3;
  wrapped = omega arith;
  ring = full-Holding inbox lock;
}

abbrev full_waiting : Inbox ℕ
full_waiting = placed inbox 3 5 two_items (some 0)

full-Live : Live full_waiting (5 ∷ 6 ∷ [])
full-Live = record {
  class = refl;
  bounded = full-Bounded (some 0);
  lock_full = λ _. refl;
  lock_ready = λ h. absurd (h refl);
}

-- The inbox that the constructor makes.
abbrev placed_new : ℕ → Inbox ℕ
placed_new capacity = record {
  class = inbox;
  capacity = capacity;
  buffer = λ _. none;
  write_idx = pos 0;
  read_idx = pos 0;
  wrap_around_count = 511;
  is_disposed = false;
  lock_full = none;
  lock_ready = none;
  next_lock = 0;
  settled = [];
  processed = 0;
  reports = [];
}

new_300 : Inbox.new_inbox inbox 300 ≡ some (placed_new 300)
unfolding Inbox.new_inbox Inbox.widen
new_300 = refl

-- Two posts fill the inbox, the third waits, a pick wakes it.
posts_wait :
    (run
      (placed inbox 3 3 nothing none)
      (posts false 5 ∷ posts false 6 ∷ posts false 7 ∷ [])).lock_full
    ≡ some 1
unfolding program
posts_wait = refl

pick_wakes :
    (run
      (placed inbox 3 3 nothing none)
      (posts false 5 ∷ posts false 6 ∷ posts false 7 ∷ takes false ∷ [])).settled
    ≡ (1, ready_signal) ∷ []
unfolding program
pick_wakes = refl

disposed_throws : (post false 9 (Inbox.dispose full_waiting)).1 ≡ thrown
unfolding program
disposed_throws = refl

cancelled_size :
    Inbox.size (Inbox.try_cancel_post (placed inbox_with_event 7 9 two_items none)).0 ≡ negsuc 2
unfolding program
cancelled_size = refl

try_post-Bounded_example :
    let s = placed inbox 3 3 nothing none in
    let (s', posted) = Inbox.try_post 5 s in
    ((0 < 2) × (posted ≡ true) × Becomes s (5 ∷ []) s')
    ⊎ ((length {A = ℕ} [] ≡ 2) × (posted ≡ false) × (s' ≡ s))
try_post-Bounded_example = try_post-Bounded 5 (placed inbox 3 3 nothing none) [] empty-Bounded

try_pick-Bounded_example :
    let s = placed inbox 3 5 two_items none in Picks s (5 ∷ 6 ∷ []) (Inbox.try_pick s)
try_pick-Bounded_example =
    try_pick-Bounded (placed inbox 3 5 two_items none) (5 ∷ 6 ∷ []) (full-Bounded none)

post_round-waits_example :
    let (t, r) = Rounds.post_round false 7 full_waiting in
    ((2 < 2) × (r ≡ returned true) × Live t (5 ∷ 6 ∷ 7 ∷ []))
    ⊎ ((length {A = ℕ} (5 ∷ 6 ∷ []) ≡ 2)
        × Live t (5 ∷ 6 ∷ [])
        × ((p : ℕ) × (r ≡ waits p)
            × (t.lock_full ≡ some p)
            × ((Rounds.pick_round false t).0.settled ≡ t.settled ++ (p, ready_signal) ∷ [])))
post_round-waits_example = post_round-waits 7 full_waiting (5 ∷ 6 ∷ []) full-Live (omega arith)

try_cancel_post_strands_example :
    let t = (Inbox.try_cancel_post full_waiting).0 in
    (t.lock_full ≡ some 0) × (t.settled ≡ []) × (Inbox.free t ≡ pos 1)
try_cancel_post_strands_example =
    try_cancel_post_strands full_waiting (5 ∷ 6 ∷ []) 0 full-Live (omega arith) refl

-- Both places of the buffer hold an item after the read index 7.
try_cancel_post_negative_example :
    ltb_ℤ
      (Inbox.size (Inbox.try_cancel_post (placed inbox_with_event 7 9 two_items none)).0)
      (pos 0)
    ≡ true
try_cancel_post_negative_example =
    try_cancel_post_negative (placed inbox_with_event 7 9 two_items none) 7 1 (5 ∷ 6 ∷ [])
      (record {
        bits = 2;
        mask = refl;
        capacity = omega arith;
        fits = omega arith;
        read_idx = refl;
        write_idx = refl;
        items = (refl, (refl, tt));
      })
      refl (omega arith) (omega arith)

-- A pick waits on the empty inbox; a post and two picks follow.
pick-Sleeps : Sleeps (run (placed_new 300) []) (takes false) 0
unfolding program
pick-Sleeps = picking refl

run_wakes_example :
    let t = step (run (placed_new 300) []) (takes false) in
    let u = run t (posts false 5 ∷ takes false ∷ takes false ∷ []) in
    SettledSince t u 0 ⊎ Blocked u (takes false) 0
run_wakes_example =
    run_wakes 300 (placed_new 300) [] (takes false) 0
      (posts false 5 ∷ takes false ∷ takes false ∷ []) new_300 pick-Sleeps
