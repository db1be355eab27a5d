-- ===== src/ScanEngine/Group/Queueing.antt =====
-- The queue of the group: first in, first out among the items that are still queued.
use mathlib.Core.Path.{ap}
use skan.Base.{
  ℕ, ◌+◌, ◌≤◌, ◌<◌, ◌≡◌, refl, ◌⊎◌, inl, inr, Bool, true, false, Option, none, some, List, [], ◌∷◌,
  ◌++◌, arith, ℤ, Bool-cases, Option-cases, increment, word_max,
}
use skan.Base.Assoc.{Assoc, find, find-modify, find-emplace}
use skan.Core.{ok}
use skan.ScanEngine.Rtt.{Precision, or_else}
use skan.ScanEngine.Group.{
  ScanWorkState, queued, same_state, ScanWorkItem, ScanGroup, validate, enqueue_item, enqueue,
  new_item, first_queued, next_queued, requeue_for_retry, state_of,
}

-- The identifier is in the map, and its item is still queued.
abbrev pub waits : Assoc ScanWorkItem → ℕ → Bool
waits items id = or_else (find id items) false (λ i. same_state i.state queued)

abbrev pub AllSkipped : Assoc ScanWorkItem → List ℕ → Type 0
AllSkipped items [] = Unit
AllSkipped items (id ∷ ids) = (waits items id ≡ false) × AllSkipped items ids

-- What the search of the queue returns: nothing, when no identifier waits; or the item of the first
-- one that does, and the queue behind it.
abbrev pub FirstWaiting : Assoc ScanWorkItem → List ℕ → Option ScanWorkItem × List ℕ → Type 0
FirstWaiting items queue result =
    (AllSkipped items queue × (result ≡ (none, [])))
    ⊎ ((skipped : List ℕ) × (id : ℕ) × (rest : List ℕ) × (item : ScanWorkItem) × (queue
          ≡ skipped ++ (id ∷ rest))
        × AllSkipped items skipped
        × (find id items ≡ some item)
        × (item.state ≡ queued)
        × (result ≡ (some item, rest)))

state_queued : (s : ScanWorkState) → same_state s queued ≡ true → s ≡ queued
unfolding same_state
state_queued queued h = refl
state_queued s h = ground arith

first_queued_hit :
    (items : Assoc ScanWorkItem) (id : ℕ) (queue : List ℕ)
    → waits items id ≡ true
    → (item : ScanWorkItem) × (find id items ≡ some item)
      × (item.state ≡ queued)
      × (first_queued (id ∷ queue) items ≡ (some item, queue))
unfolding first_queued
first_queued_hit items id queue h = elim (Option-cases (find id items)) [
  | inl e ↦ absurd (ground arith)
  | inr (item, e) ↦
      let w : same_state item.state queued ≡ true = ground arith in
      (item, e, state_queued item.state w, rw (e, w))
]

first_queued_miss :
    (items : Assoc ScanWorkItem) (id : ℕ) (queue : List ℕ)
    → waits items id ≡ false
    → first_queued (id ∷ queue) items ≡ first_queued queue items
unfolding first_queued
first_queued_miss items id queue h = elim (Option-cases (find id items)) [
  | inl e ↦ rw e
  | inr (item, e) ↦ let w : same_state item.state queued ≡ false = ground arith in rw (e, w)
]

-- Skipping one more identifier keeps the description of the search.
FirstWaiting-skip :
    (items : Assoc ScanWorkItem) (id : ℕ) (queue : List ℕ) {r : Option ScanWorkItem × List ℕ}
    → waits items id ≡ false
    → FirstWaiting items queue r
    → FirstWaiting items (id ∷ queue) r
FirstWaiting-skip items id queue h (inl (a, e)) = inl ((h, a), e)
FirstWaiting-skip items id queue h (inr (skipped, k, rest, item, q, a, f, w, e)) =
    inr (id ∷ skipped, k, rest, item, ap (◌∷◌ id) q, (h, a), f, w, e)

first_queued-FirstWaiting :
    (items : Assoc ScanWorkItem) (queue : List ℕ)
    → FirstWaiting items queue (first_queued queue items)
first_queued-FirstWaiting items [] = inl (tt, unfold first_queued in refl)
first_queued-FirstWaiting items (id ∷ queue) = elim (Bool-cases (waits items id)) [
  | inl h ↦
      let (item, e, w, r) = first_queued_hit items id queue h in
      inr ([], id, queue, item, refl, tt, e, w, r)
  | inr h ↦
      rw (first_queued_miss items id queue h)
        (FirstWaiting-skip items id queue h (first_queued-FirstWaiting items queue))
]

module _ {D L : Type 0} where
  -- `next_queued` returns the item of the first identifier of the queue whose item is still queued
  -- and leaves the queue behind that identifier; if there is none it returns nothing and leaves the
  -- queue empty. It changes no item.
  pub next_queued-FirstWaiting :
      (g : ScanGroup D L)
      → let (item, h) = next_queued g in
        FirstWaiting g.items g.queue (item, h.queue) × (h.items ≡ g.items)
  unfolding next_queued
  next_queued-FirstWaiting g = (first_queued-FirstWaiting g.items g.queue, refl)

  -- A retry that is granted counts one more retry, within the profile's limit, and puts the
  -- identifier at the end of the queue with its item queued again.
  pub requeue_granted :
      (g : ScanGroup D L) (pushed : Bool) (item : ScanWorkItem)
      → item.retry_count < word_max
      → (requeue_for_retry pushed g item).0 ≡ true
      → let h = (requeue_for_retry pushed g item).1 in
        (h.queue ≡ g.queue ++ (item.id ∷ []))
        × (find item.id h.items
            ≡ some (record item { state = queued; retry_count = item.retry_count + 1 }))
        × (item.retry_count + 1 ≤ g.profile.max_retries)
  unfolding requeue_for_retry
  requeue_granted g pushed item b h = elim (Option-cases (find item.id g.items)) [
    | inl e ↦ absurd (ground arith)
    | inr (stored, e) ↦ rw e (
        ground (
          arith,
          find-modify item.id item.id
              (λ (i : ScanWorkItem). record item {
                state = queued;
                retry_count = increment item.retry_count;
              })
              g.items,
        ))
  ]

module _ {D L : Type 0} (P : Precision D L) where
  -- In a valid group whose next identifier is a free, non-zero word, an enqueue with enough memory
  -- succeeds, returns that identifier, appends it to the queue and stores a queued item under it.
  pub enqueue_succeeds :
      (g : ScanGroup D L) (now : ℤ) (target metadata : List ℕ)
      → validate P g ≡ ok
      → 0 < g.next_id
      → g.next_id ≤ word_max
      → find g.next_id g.items ≡ none
      → let (status, id, h) = enqueue P now true true g target metadata in
        (status ≡ ok)
        × (id ≡ some g.next_id)
        × (h.queue ≡ g.queue ++ (g.next_id ∷ []))
        × (state_of h g.next_id ≡ some queued)
  unfolding enqueue enqueue_item validate state_of same_state
  enqueue_succeeds g now target metadata v p b f =
      ground
        (arith, find-emplace g.next_id g.next_id (new_item g.next_id target metadata now) g.items)
