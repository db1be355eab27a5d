-- ===== src/ScanEngine/Scheduler/Receiving.antt =====
-- Completions that match no pending probe, and the silence after a shutdown.
use skan.Base.{
  ℕ, ◌≡◌, refl, ◌⊎◌, inl, inr, Bool, true, false, List, [], ◌∷◌, arith, ℤ, Option-cases,
}
use skan.Base.Assoc.{Assoc, find}
use skan.Core.{invalid_argument}
use skan.ScanEngine.Rtt.{Precision}
use skan.ScanEngine.Group.{cancel_all}
use skan.ScanEngine.Scheduler.{
  Scheduler, Pending, Answer, Effect, cancel_timer, cancel_probe, stop_engine, ScanCompletion,
  contains, insert, receive, on_timeout, cancel, shutdown, abandon_each,
}

-- The effect is in the list.
abbrev pub Asked : Effect → List Effect → Type 0
Asked e [] = ⊥
Asked e (f ∷ fs) = (f ≡ e) ⊎ Asked e fs

-- The timer and the probe of every entry were cancelled, and its identifier has expired.
abbrev pub AllAbandoned : Assoc Pending → List ℕ → List Effect → Type 0
AllAbandoned [] expired effects = Unit
AllAbandoned ((id, pending) ∷ rest) expired effects =
    (Asked (cancel_timer pending.timer_id) effects
      × Asked (cancel_probe id) effects
      × (contains id expired ≡ true))
    × AllAbandoned rest expired effects

contains-insert :
    (j k : ℕ) (ids : List ℕ) → contains j ids ≡ true → contains j (insert k ids) ≡ true
unfolding contains insert
contains-insert j k ids h = ground arith

contains-insert_self : (k : ℕ) (ids : List ℕ) → contains k (insert k ids) ≡ true
unfolding contains insert
contains-insert_self k ids = ground arith

abandon_keeps_effect :
    (m : Assoc Pending) (expired : List ℕ) (effects : List Effect) (e : Effect)
    → Asked e effects
    → Asked e (abandon_each m expired effects).1
unfolding abandon_each
abandon_keeps_effect [] expired effects e h = h
abandon_keeps_effect ((id, p) ∷ m) expired effects e h =
    abandon_keeps_effect m (insert id expired) (cancel_probe id ∷ cancel_timer p.timer_id ∷ effects)
      e (inr (inr h))

abandon_keeps_expired :
    (m : Assoc Pending) (expired : List ℕ) (effects : List Effect) (j : ℕ)
    → contains j expired ≡ true
    → contains j (abandon_each m expired effects).0 ≡ true
unfolding abandon_each
abandon_keeps_expired [] expired effects j h = h
abandon_keeps_expired ((id, p) ∷ m) expired effects j h =
    abandon_keeps_expired m (insert id expired)
      (cancel_probe id ∷ cancel_timer p.timer_id ∷ effects) j (contains-insert j id expired h)

abandon_each-AllAbandoned :
    (m : Assoc Pending) (expired : List ℕ) (effects : List Effect)
    → let (expired', effects') = abandon_each m expired effects in AllAbandoned m expired' effects'
unfolding abandon_each
abandon_each-AllAbandoned [] expired effects = tt
abandon_each-AllAbandoned ((id, p) ∷ m) expired effects =
    let expired' = insert id expired in
    let effects' = cancel_probe id ∷ cancel_timer p.timer_id ∷ effects in
    (
      (
        abandon_keeps_effect m expired' effects' (cancel_timer p.timer_id) (inr (inl refl)),
        abandon_keeps_effect m expired' effects' (cancel_probe id) (inl refl),
        abandon_keeps_expired m expired' effects' id (contains-insert_self id expired),
      ),
      abandon_each-AllAbandoned m expired' effects',
    )

Asked-cons :
    (m : Assoc Pending) (expired : List ℕ) (effects : List Effect) (e : Effect)
    → AllAbandoned m expired effects
    → AllAbandoned m expired (e ∷ effects)
Asked-cons [] expired effects e h = tt
Asked-cons ((id, p) ∷ m) expired effects e ((t, c, x), rest) =
    ((inr t, inr c, x), Asked-cons m expired effects e rest)

module _ {D L : Type 0} where
  -- A shutdown of a running scheduler stops it and the engine, leaves nothing pending or queued,
  -- cancels the timer and the probe of every pending entry and marks its identifier as expired.
  pub shutdown_abandons :
      (s : Scheduler D L) (now : ℤ)
      → s.stopped ≡ false
      → let t = shutdown now s in
        (t.stopped ≡ true)
        × (t.pending ≡ [])
        × (t.group.queue ≡ [])
        × Asked stop_engine t.effects
        × AllAbandoned s.pending t.expired_ids t.effects
  unfolding shutdown cancel_all
  shutdown_abandons s now h = rw h (
    refl,
    refl,
    refl,
    inl refl,
    Asked-cons s.pending _ _ stop_engine
        (abandon_each-AllAbandoned s.pending s.expired_ids s.effects),
  )

  shutdown-stopped : (s : Scheduler D L) (now : ℤ) → (shutdown now s).stopped ≡ true
  unfolding shutdown
  shutdown-stopped s now = ground arith

module _ {D L : Type 0} (P : Precision D L) where
  stopped_silent :
      (t : Scheduler D L) (later : ℤ) (pushed : Bool) (answers : ℕ → Answer)
      (completion : ScanCompletion)
      → t.stopped ≡ true
      → (receive P pushed answers later t completion ≡ t)
        × (on_timeout P pushed answers later t completion.id ≡ t)
        × (cancel P answers later t completion.id ≡ (invalid_argument, t))
        × (shutdown later t ≡ t)
  unfolding receive on_timeout cancel shutdown
  stopped_silent t later pushed answers completion h =
      elim (Option-cases (find completion.id t.pending)) [
        | inl e ↦ rw (h, e) (refl, refl, ground arith, refl)
        | inr (p, e) ↦ rw (h, e) (refl, refl, ground arith, refl)
      ]

  -- After a shutdown, a completion, a timer and a second shutdown change nothing, and `cancel` is
  -- refused.
  pub shutdown_silent :
      (s : Scheduler D L) (now later : ℤ) (pushed : Bool) (answers : ℕ → Answer)
      (completion : ScanCompletion)
      → let t = shutdown now s in
        (receive P pushed answers later t completion ≡ t)
        × (on_timeout P pushed answers later t completion.id ≡ t)
        × (cancel P answers later t completion.id ≡ (invalid_argument, t))
        × (shutdown later t ≡ t)
  shutdown_silent s now later pushed answers completion =
      stopped_silent (shutdown now s) later pushed answers completion (shutdown-stopped s now)
