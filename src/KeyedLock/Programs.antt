-- ===== src/KeyedLock/Programs.antt =====
-- What an operation does before it first waits: calls of withLock within calls.
use fancy_kit.Common.{
  ◌≡◌, ◌↔◌, refl, ◌∙◌, Bool, true, List, [], ◌∷◌, Option, none, some, ℕ, if_cases,
}
use fancy_kit.KeyedLock.{
  Locks, Status, waits, runs, ends, Program, stops, locks, Event, calls, continues, settles, task,
  set_status, has_ended, next_task, with_lock, proceeds, continued, begun,
}
use fancy_kit.KeyedLock.Valid.{ValidOn, Valid, Without}
use fancy_kit.KeyedLock.Steps.{begun-ValidOn, started-Valid, task-set_status}
use fancy_kit.KeyedLock.Calls.{Keeps, with_lock-Keeps}

module _ {K : Type 0} (same : K → K → Bool) where
  -- The calls of the program have such keys, and none has the key of a call that it is made within.
  abbrev pub Apart : (K → Type 0) → Program K → Type 0
  Apart P (stops throws) = Unit
  Apart P (locks key inner rest) = P key × Apart (Without same key P) inner × Apart P rest

  abbrev pub AnyKey : K → Type 0
  AnyKey k = Unit

  -- No operation, before it first waits, calls withLock with the key of a call that is starting it.
  abbrev pub Unnested : Event K → Type 0
  Unnested (calls key program) = Apart (Without same key AnyKey) program
  Unnested (continues n program) = Apart AnyKey program
  Unnested (settles n) = Unit

  abbrev pub AllUnnested : List (Event K) → Type 0
  AllUnnested [] = Unit
  AllUnnested (e ∷ es) = Unnested e × AllUnnested es

module _ {K : Type 0} (same : K → K → Bool)
    (same_iff : (a b : K) → (same a b ≡ true) ↔ (a ≡ b)) where
  Keeps-trans :
      (P : K → Type 0) (s t u : Locks K)
      → Keeps same same_iff P s t
      → Keeps same same_iff P t u
      → Keeps same same_iff P s u
  Keeps-trans P s t u a b = record {
    valid = b.valid;
    stays = λ n x h. b.stays n x (a.stays n x h);
    last = λ j d. b.last j d ∙ a.last j d;
  }

  proceeds-Keeps :
      (program : Program K) (P : K → Type 0) (s : Locks K)
      → Apart same P program
      → ValidOn same same_iff P s
      → Keeps same same_iff P s (proceeds same program s).0
  proceeds-Keeps (stops throws) P s a v = record {
    valid = v;
    stays = λ n x h. h;
    last = λ j d. refl;
  }
  proceeds-Keeps (locks key inner rest) P s (p, a, b) v =
      let t = with_lock same key (proceeds same inner) s in
      let called =
        with_lock-Keeps same same_iff P key s p (proceeds same inner) v
          λ u w. proceeds-Keeps inner (Without same key P) u a w in
      Keeps-trans P s t (proceeds same rest t).0 called (proceeds-Keeps rest P t b called.valid)

  pub with_lock-Valid :
      (key : K) (program : Program K) (s : Locks K)
      → Unnested same (calls key program)
      → Valid same same_iff s
      → Valid same same_iff (with_lock same key (proceeds same program) s)
  with_lock-Valid key program s a v =
      let kept =
        with_lock-Keeps same same_iff (AnyKey same) key s tt (proceeds same program) v
          λ u w. proceeds-Keeps program (Without same key (AnyKey same)) u a w in
      kept.valid

  begun-Valid :
      (n : ℕ) (k : K) (s : Locks K) (r : Locks K × Bool)
      → Keeps same same_iff (AnyKey same) s r.0
      → task n s.tasks ≡ some (k, runs)
      → Valid same same_iff (begun same n k r)
  begun-Valid n k s (u, throws) kept h =
      begun-ValidOn same same_iff (AnyKey same) n k throws u kept.valid (kept.stays n (k, runs) h)

  pub continued-Valid :
      (n : ℕ) (program : Program K) (t : Option (K × Status)) (s : Locks K)
      → Unnested same (continues n program)
      → Valid same same_iff s
      → task n s.tasks ≡ t
      → Valid same same_iff (continued same n program t s)
  unfolding next_task
  continued-Valid n program none s a v h = v
  continued-Valid n program (some (k, runs)) s a v h = v
  continued-Valid n program (some (k, ends)) s a v h = v
  continued-Valid n program (some (k, waits prev)) s a v h =
      if_cases (Valid same same_iff) (has_ended (task prev s.tasks))
        (λ e.
          let t = record s { tasks = set_status n runs s.tasks } in
          begun-Valid n k t (proceeds same program t)
            (proceeds-Keeps program (AnyKey same) t a
              (started-Valid same same_iff n k prev s v h e))
            (task-set_status n k (waits prev) runs s.tasks h))
        λ _. v
