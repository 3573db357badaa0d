-- ===== src/Tests/Lock.antt =====
-- Two callers of one key: the first holds its guard, the second waits.
use grafana_mcp_setup.Prelude.{◌≤◌, ℕ, ◌≡◌, refl, ◌⊎◌, none, some, [], ◌∷◌, Text, codes, text_eq}
use grafana_mcp_setup.Lock.Local.{
  LocalLocker, new_local_locker, register, set_ready, waiting, holding, leaving, caller, world,
  Step, enter, take, Reach, start, next,
}
use grafana_mcp_setup.Lock.Callers.{holders, mentions}
use grafana_mcp_setup.Lock.Exclusion.{
  holders-AtMostOne, release_never_blocks, lock_exists_while_used,
}

abbrev ann : Text
ann = codes "ann@example.com"

abbrev one_caller : LocalLocker
one_caller = (register ann new_local_locker).1

abbrev first : LocalLocker
first = set_ready 0 0 one_caller

abbrev both : LocalLocker
both = (register ann first).1

one_waits : Reach (world one_caller (caller ann 0 waiting ∷ []))
unfolding register
one_waits = next start (enter new_local_locker [] ann)

one_holds : Reach (world first (caller ann 0 holding ∷ []))
unfolding register
one_holds = next one_waits (take one_caller [] [] ann 0 refl)

one_waits_for_one : Reach (world both (caller ann 0 waiting ∷ caller ann 0 holding ∷ []))
unfolding register text_eq
one_waits_for_one = next one_holds (enter first (caller ann 0 holding ∷ []) ann)

holders-AtMostOne_example : holders ann (caller ann 0 waiting ∷ caller ann 0 holding ∷ []) ≤ 1
holders-AtMostOne_example = holders-AtMostOne one_waits_for_one ann

release_never_blocks_example :
    Step
      (world both (caller ann 0 waiting ∷ caller ann 0 holding ∷ []))
      (world (set_ready 1 0 both) (caller ann 0 waiting ∷ caller ann 0 leaving ∷ []))
release_never_blocks_example =
    release_never_blocks both (caller ann 0 waiting ∷ []) [] ann 0 one_waits_for_one

lock_exists_while_used_example :
    ((both.locks ann ≡ none)
      × (mentions ann (caller ann 0 waiting ∷ caller ann 0 holding ∷ []) ≡ 0))
    ⊎ ((p : ℕ) × (both.locks ann ≡ some p)
        × ((both.heap p).refs ≡ mentions ann (caller ann 0 waiting ∷ caller ann 0 holding ∷ []))
        × (1 ≤ mentions ann (caller ann 0 waiting ∷ caller ann 0 holding ∷ [])))
lock_exists_while_used_example = lock_exists_while_used one_waits_for_one ann
