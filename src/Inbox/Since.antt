-- ===== src/Inbox/Since.antt =====
-- Which promises of an `Inbox` are resolved or rejected from one state to a later one, and which it still holds.
use fancy_kit.Common.{
  ℕ, ◌+◌, ◌≡◌, refl, sym, ap, subst, ◌∙◌, ◌⊎◌, inl, inr, List, [], ◌∷◌, ◌++◌, Option, none, some,
  none-ne-some, some-injective, if_cases, append_assoc, append-nil,
}
use fancy_kit.Common.Int.{pos, ltb_ℤ}
use fancy_kit.Inbox.{
  Inbox, inbox, sync_inbox, inbox_with_event, state, Signal, ready_signal, fix_idx, notify_free,
  notify_ready, on_posted, on_picked, on_progress, settle_lock,
}
use fancy_kit.Inbox.Locks.{fix_idx-locks}

-- The promise is among those that were resolved or rejected.
pub data Settled (p : ℕ) : List (ℕ × Signal) → Type 0 where
  first : {signal : Signal} {more : List (ℕ × Signal)} → Settled p ((p, signal) ∷ more)
  later : {x : ℕ × Signal} {more : List (ℕ × Signal)} → Settled p more → Settled p (x ∷ more)

Settled-left : (p : ℕ) (xs ys : List (ℕ × Signal)) → Settled p xs → Settled p (xs ++ ys)
Settled-left p _ ys first = first
Settled-left p _ ys (later {x} {more} s) = later (Settled-left p more ys s)

Settled-right : (p : ℕ) (xs ys : List (ℕ × Signal)) → Settled p ys → Settled p (xs ++ ys)
Settled-right p [] ys s = s
Settled-right p (x ∷ xs) ys s = later (Settled-right p xs ys s)

-- A lock that is held before is still held, or its promise was settled in between.
abbrev pub Kept : Option ℕ → Option ℕ → List (ℕ × Signal) → Type 0
Kept before after more = (p : ℕ) → before ≡ some p → (after ≡ some p) ⊎ Settled p more

pub Kept-trans :
    (a b c : Option ℕ) (xs ys : List (ℕ × Signal)) → Kept a b xs → Kept b c ys → Kept a c (xs ++ ys)
Kept-trans a b c xs ys f g p e = elim (f p e) [
  | inl h ↦ elim (g p h) [ inl k ↦ inl k | inr s ↦ inr (Settled-right p xs ys s) ]
  | inr s ↦ inr (Settled-left p xs ys s)
]

pub released : (o : Option ℕ) (signal : Signal) → Kept o none (settle_lock signal o [])
released none signal p e = absurd (none-ne-some p e)
released (some q) signal p e = rw (some-injective q p e) (inr first)

pub settle_lock-append :
    (o : Option ℕ) (signal : Signal) (xs : List (ℕ × Signal))
    → settle_lock signal o xs ≡ xs ++ settle_lock signal o []
settle_lock-append none signal xs = sym (append-nil xs)
settle_lock-append (some q) signal xs = refl

module _ {ℓ} {A : Type ℓ} where
  -- From one state of an inbox to a later one: what was settled in between, and every lock of the
  -- first state is still held or was settled.
  pub record Later (s t : Inbox A) : Type 0 where
    pub more : List (ℕ × Signal)
    pub order : t.settled ≡ s.settled ++ more
    pub full : Kept s.lock_full t.lock_full more
    pub ready : Kept s.lock_ready t.lock_ready more

  pub same_locks :
      (s t : Inbox A)
      → t.settled ≡ s.settled
      → t.lock_full ≡ s.lock_full
      → t.lock_ready ≡ s.lock_ready
      → Later s t
  same_locks s t e f r = record {
    more = [];
    order = e ∙ sym (append-nil s.settled);
    full = λ p h. inl (f ∙ h);
    ready = λ p h. inl (r ∙ h);
  }

  pub Later-refl : (s : Inbox A) → Later s s
  Later-refl s = same_locks s s refl refl refl

  pub Later-trans : (s t u : Inbox A) → Later s t → Later t u → Later s u
  Later-trans s t u a b = record {
    more = a.more ++ b.more;
    order = b.order ∙ ap (λ l. l ++ b.more) a.order ∙ append_assoc s.settled a.more b.more;
    full = Kept-trans s.lock_full t.lock_full u.lock_full a.more b.more a.full b.full;
    ready = Kept-trans s.lock_ready t.lock_ready u.lock_ready a.more b.more a.ready b.ready;
  }

  notify_free-Later : (s : Inbox A) → Later s (notify_free s)
  unfolding notify_free
  notify_free-Later s = record {
    more = settle_lock ready_signal s.lock_full [];
    order = settle_lock-append s.lock_full ready_signal s.settled;
    full = released s.lock_full ready_signal;
    ready = λ p h. inl h;
  }

  notify_ready-Later : (s : Inbox A) → Later s (notify_ready s)
  unfolding notify_ready
  notify_ready-Later s = record {
    more = settle_lock ready_signal s.lock_ready [];
    order = settle_lock-append s.lock_ready ready_signal s.settled;
    full = λ p h. inl h;
    ready = released s.lock_ready ready_signal;
  }

  pub fix_idx-settled : (s : Inbox A) → (fix_idx s).settled ≡ s.settled
  unfolding fix_idx
  fix_idx-settled s =
      if_cases (λ (t : Inbox A). t.settled ≡ s.settled) (ltb_ℤ (pos s.wrap_around_count) s.read_idx)
        (λ _. refl) λ _. refl

  fix_idx-Later : (s : Inbox A) → s.class ≡ inbox → Later s (fix_idx s)
  fix_idx-Later s e =
      let (f, r, _) = fix_idx-locks s e in same_locks s (fix_idx s) (fix_idx-settled s) f r

  on_progress_plain : (s : Inbox A) → s.class ≡ inbox → on_progress s ≡ fix_idx s
  unfolding on_progress
  on_progress_plain s e =
      ap
        (λ c. elim c as (λ _. Inbox A) [
          | inbox_with_event ↦ record s {
            processed = s.processed + 1;
            reports = s.reports ++ state s ∷ [];
          }
          | _ ↦ fix_idx s
        ])
        e

  on_posted_opened : (s : Inbox A) → s.class ≡ inbox → on_posted s ≡ notify_ready (fix_idx s)
  unfolding on_posted
  on_posted_opened s e =
      ap
        (λ c. elim c as (λ _. Inbox A) [
          | sync_inbox ↦ on_progress s
          | _ ↦ notify_ready (on_progress s)
        ])
        e
      ∙ ap notify_ready (on_progress_plain s e)

  pub on_posted-Later : (s : Inbox A) → s.class ≡ inbox → Later s (on_posted s)
  on_posted-Later s e =
      let u = fix_idx s in
      subst (Later s) (sym (on_posted_opened s e))
        (Later-trans s u (notify_ready u) (fix_idx-Later s e) (notify_ready-Later u))

  pub on_picked_opened : (s : Inbox A) → s.class ≡ inbox → on_picked s ≡ notify_free (fix_idx s)
  unfolding on_picked
  on_picked_opened s e =
      ap
        (λ c. elim c as (λ _. Inbox A) [
          | sync_inbox ↦ on_progress s
          | _ ↦ notify_free (on_progress s)
        ])
        e
      ∙ ap notify_free (on_progress_plain s e)

  pub on_picked-Later : (s : Inbox A) → s.class ≡ inbox → Later s (on_picked s)
  on_picked-Later s e =
      let u = fix_idx s in
      subst (Later s) (sym (on_picked_opened s e))
        (Later-trans s u (notify_free u) (fix_idx-Later s e) (notify_free-Later u))
