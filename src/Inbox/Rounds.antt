-- ===== src/Inbox/Rounds.antt =====
-- The asynchronous methods `post` and `pick` of `Inbox`, cut at their `await`s. A round runs from the
-- head of the loop to the race; `woken` goes on from what won the race. The caller says whether a
-- cancellation had resolved before the round.
use fancy_kit.Common.{ℕ, Bool, true, false, Option, none, some, if◌then◌else◌}
use fancy_kit.Inbox.{
  Inbox, Signal, ready_signal, dispose_error, Round, returned, thrown, waits, again, Picked,
  not_available, item, try_post, try_pick, wait_for_free, wait_for_ready,
}

-- What the race returns: a lock's signal, or the timeout or a cancellation.
pub data Winner : Type 0 where
  lock : Signal → Winner
  given_up : Winner

abbrev pub waiting {ℓ} : {R : Type ℓ} → Option ℕ → Round R
waiting none = again
waiting (some p) = waits p

module _ {ℓ} {A : Type ℓ} where
  unfoldable pub post_round : Bool → A → Inbox A → Inbox A × Round Bool
  post_round cancelled x s =
      if cancelled
      then (s, returned false)
      else (let (s', posted) = try_post x s in
          if posted then (s', returned true) else (let (w, p) = wait_for_free s' in (w, waiting p)))

  unfoldable pub post : Bool → A → Inbox A → Inbox A × Round Bool
  unfolding post_round
  post cancelled x s = if s.is_disposed then (s, thrown) else post_round cancelled x s

  -- A signal makes the loop go round again unless the inbox was disposed meanwhile.
  unfoldable pub post_woken : Winner → Inbox A → Round Bool
  post_woken (lock ready_signal) s = if s.is_disposed then returned false else again
  post_woken (lock dispose_error) s = thrown
  post_woken given_up s = returned false

  abbrev pub pick_result : Inbox A × Picked A → Inbox A × Round (Picked A)
  pick_result (s, item x) = (s, returned (item x))
  pick_result (s, not_available) = let (w, p) = wait_for_ready s in (w, waiting p)

  unfoldable pub pick_round : Bool → Inbox A → Inbox A × Round (Picked A)
  pick_round cancelled s =
      if cancelled then (s, returned not_available) else pick_result (try_pick s)

  unfoldable pub pick : Bool → Inbox A → Inbox A × Round (Picked A)
  unfolding pick_round
  pick cancelled s = if s.is_disposed then (s, thrown) else pick_round cancelled s

  unfoldable pub pick_woken : Winner → Inbox A → Round (Picked A)
  pick_woken (lock ready_signal) s = if s.is_disposed then returned not_available else again
  pick_woken (lock dispose_error) s = thrown
  pick_woken given_up s = returned not_available
