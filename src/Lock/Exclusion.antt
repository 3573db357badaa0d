-- ===== src/Lock/Exclusion.antt =====
-- The locker of one process over its runs: exclusion, progress, and the life of a lock.
use mathlib.Core.Path.{fun_ext, subst}
use grafana_mcp_setup.Prelude.{
  ap, ==_iff, ℕ, ◌+◌, ◌≤◌, ◌≡◌, none, some, List, ◌∷◌, ◌++◌, Text, text_eq_refl, ◌⊎◌, inl, inr,
  arith, Option-cases,
}
use grafana_mcp_setup.Lock.Local.{
  LocalLock, LocalLocker, set_at, set_ready, Phase, waiting, holding, leaving, Caller, World,
  caller, world, Step, enter, take, cancel, send, leave, Reach, start, next,
}
use grafana_mcp_setup.Lock.Callers.{holders, mentions, hold_of, holders-middle}
use grafana_mcp_setup.Lock.Sound.{
  unmentioned, IsSound, start-IsSound, enter-IsSound, moved-IsSound, its_lock, leave-IsSound,
}

own_ready :
    (l : LocalLocker) (p q : ℕ)
    → set_at l.heap p (record { ready = (l.heap p).ready; refs = (l.heap p).refs }) q ≡ l.heap q
own_ready l p q = grind (arith, ==_iff p q)

set_own : (l : LocalLocker) (p : ℕ) → set_ready (l.heap p).ready p l ≡ l
set_own l p = ap (λ (heap : ℕ → LocalLock). record l { heap = heap }) (fun_ext (own_ready l p))

Step-IsSound : {v w : World} → Step v w → IsSound v → IsSound w
Step-IsSound (enter l cs key) h = enter-IsSound l cs key h
Step-IsSound (take l before after key p e) h =
    moved-IsSound l before after key p waiting holding h 0 (grind (arith, text_eq_refl key))
Step-IsSound (cancel l before after key p) h =
    subst (λ (k : LocalLocker). IsSound (world k (before ++ caller key p leaving ∷ after)))
      (set_own l p)
      (moved-IsSound l before after key p waiting leaving h (l.heap p).ready (grind arith))
Step-IsSound (send l before after key p e) h =
    moved-IsSound l before after key p holding leaving h 1 (grind (arith, text_eq_refl key))
Step-IsSound (leave l before after key p) h = leave-IsSound l before after key p h

Reach-IsSound : {w : World} → Reach w → IsSound w
Reach-IsSound start = start-IsSound
Reach-IsSound (next r step) = Step-IsSound step (Reach-IsSound r)

-- Whatever the goroutines do, at most one caller of a key is in its guarded operation.
pub holders-AtMostOne : {w : World} → Reach w → (key : Text) → holders key w.callers ≤ 1
holders-AtMostOne {w = w} r key =
    let h = Reach-IsSound r in
    elim (Option-cases (w.locker.locks key)) [
      | inl free ↦ omega (arith, (unmentioned w.locker w.callers key h.pointed free).1)
      | inr (p, used) ↦ omega (arith, (h.serves key p used).one)
    ]

-- The lock of a caller that stands at a given place is the one in the map.
module _ (l : LocalLocker) (before after : List Caller) (key : Text) (p : ℕ) (phase : Phase)
    (r : Reach (world l (before ++ caller key p phase ∷ after))) where
  its_balance :
      (l.heap p).ready + (hold_of key (caller key p phase) + holders key (before ++ after)) ≡ 1
  its_balance =
      let h = Reach-IsSound r in
      omega (
        arith,
        (h.serves key p (its_lock l before after key p phase phase h)).one,
        holders-middle key before (caller key p phase) after,
      )

module _ (l : LocalLocker) (before after : List Caller) (key : Text) (p : ℕ) where
  -- A caller that holds a guard can always release it: the channel of its lock is empty, so that the
  -- send does not block.
  pub release_never_blocks :
      Reach (world l (before ++ caller key p holding ∷ after))
      → Step
          (world l (before ++ caller key p holding ∷ after))
          (world (set_ready 1 p l) (before ++ caller key p leaving ∷ after))
  release_never_blocks r =
      send l before after key p
        (grind (arith, its_balance l before after key p holding r, text_eq_refl key))

  -- While nobody holds the guard of a key, each waiting caller of the key can take it.
  pub free_lock_is_taken :
      Reach (world l (before ++ caller key p waiting ∷ after))
      → holders key (before ++ after) ≡ 0
      → Step
          (world l (before ++ caller key p waiting ∷ after))
          (world (set_ready 0 p l) (before ++ caller key p holding ∷ after))
  free_lock_is_taken r e =
      take l before after key p
        (grind (arith, its_balance l before after key p waiting r, text_eq_refl key))

-- The map has a lock for a key exactly while callers of the key wait, hold or leave, and its
-- reference count is their number.
pub lock_exists_while_used :
    {w : World}
    → Reach w
    → (key : Text)
    → ((w.locker.locks key ≡ none) × (mentions key w.callers ≡ 0))
      ⊎ ((p : ℕ) × (w.locker.locks key ≡ some p)
          × ((w.locker.heap p).refs ≡ mentions key w.callers)
          × (1 ≤ mentions key w.callers))
lock_exists_while_used {w = w} r key =
    let h = Reach-IsSound r in
    elim (Option-cases (w.locker.locks key)) [
      | inl free ↦ inl (free, (unmentioned w.locker w.callers key h.pointed free).0)
      | inr (p, used) ↦ let s = h.serves key p used in inr (p, used, s.counted, s.used)
    ]
