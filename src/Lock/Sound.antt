-- ===== src/Lock/Sound.antt =====
-- The invariant of the locker of one process: each caller's key leads to its lock, distinct keys to
-- distinct locks, the reference count is the number of callers, and channel and holders sum to 1.
use grafana_mcp_setup.Prelude.{
  ℕ, suc, ◌+◌, ◌≤◌, ◌<◌, ◌≡◌, refl, sym, ◌∙◌, inl, inr, false, none, some, List, [], ◌∷◌, ◌++◌,
  Text, text_eq, text_eq_iff, text_eq_refl, ◌==◌, ==_iff, if◌then◌else◌, All, arith, Bool-cases,
  Option-cases,
}
use grafana_mcp_setup.Lock.Local.{
  LocalLocker, set_key, new_local_locker, reference, register, set_ready, release_ref, Phase,
  waiting, leaving, Caller, World, caller, world,
}
use grafana_mcp_setup.Lock.Callers.{
  mentions, hold_of, holders, mentions-middle, holders-middle, All-without, All-with, All-imp,
}

-- What a lock of the map says of the callers of its key.
pub record Serves (l : LocalLocker) (cs : List Caller) (k : Text) (p : ℕ) : Type 0 where
  pub bound : p < l.next
  pub counted : (l.heap p).refs ≡ mentions k cs
  pub used : 1 ≤ mentions k cs
  pub one : (l.heap p).ready + holders k cs ≡ 1

pub record IsSound (w : World) : Type 0 where
  pub pointed : All (λ c. w.locker.locks c.key ≡ some c.lock) w.callers
  pub apart : (j k : Text) (p : ℕ) → w.locker.locks j ≡ some p → w.locker.locks k ≡ some p → j ≡ k
  pub serves : (k : Text) (p : ℕ) → w.locker.locks k ≡ some p → Serves w.locker w.callers k p

without_key :
    (P : Caller → Type 0) (k : Text) (cs : List Caller)
    → mentions k cs ≡ 0
    → All P cs
    → All (λ c. P c × (text_eq c.key k ≡ false)) cs
without_key P k [] e h = tt
without_key P k (c ∷ cs) e h = ((h.0, grind arith), without_key P k cs (grind arith) h.1)

-- A key without a lock has no callers.
pub unmentioned :
    (l : LocalLocker) (cs : List Caller) (k : Text)
    → All (λ c. l.locks c.key ≡ some c.lock) cs
    → l.locks k ≡ none
    → (mentions k cs ≡ 0) × (holders k cs ≡ 0)
unmentioned l [] k h e = (refl, refl)
unmentioned l (c ∷ cs) k h e = grind (arith, unmentioned l cs k h.1 e, text_eq_iff c.key k)

pub start-IsSound : IsSound (world new_local_locker [])
start-IsSound = record { pointed = tt; apart = λ j k p e f. cc; serves = λ k p e. cc }

module _ (l : LocalLocker) (cs : List Caller) (key : Text) (h : IsSound (world l cs)) where
  enter_old-IsSound :
      (p : ℕ)
      → l.locks key ≡ some p
      → let x = reference key l (some p) in IsSound (world x.1 (caller key p waiting ∷ cs))
  enter_old-IsSound p e = record {
    pointed = (e, h.pointed);
    apart = h.apart;
    serves = λ k q f.
        let old = h.serves k q f in
        record {
          bound = old.bound;
          counted = grind (arith, old.counted, text_eq_iff key k, h.apart key k p);
          used = grind (arith, old.used);
          one = grind (arith, old.one, text_eq_iff key k, h.apart key k p);
        };
  }

  enter_new-apart :
      l.locks key ≡ none
      → (j k : Text) (q : ℕ) → set_key l.locks key (some l.next) j ≡ some q
      → set_key l.locks key (some l.next) k ≡ some q
      → j ≡ k
  enter_new-apart e j k q f g = elim (Bool-cases (text_eq key j)) [
    | inl hit ↦ elim (Bool-cases (text_eq key k)) [
      | inl also ↦ sym ((text_eq_iff key j).0 hit) ∙ (text_eq_iff key k).0 also
      | inr miss ↦ absurd (grind (arith, (h.serves k q (grind arith)).bound))
    ]
    | inr miss ↦ elim (Bool-cases (text_eq key k)) [
      | inl hit ↦ absurd (grind (arith, (h.serves j q (grind arith)).bound))
      | inr also ↦ h.apart j k q (grind arith) (grind arith)
    ]
  ]

  enter_new-Serves :
      l.locks key ≡ none
      → (k : Text) (q : ℕ) → set_key l.locks key (some l.next) k ≡ some q
      → Serves (reference key l none).1 (caller key l.next waiting ∷ cs) k q
  enter_new-Serves e k q f = elim (Bool-cases (text_eq key k)) [
    | inl hit ↦
        let empty = unmentioned l cs k h.pointed (grind (arith, text_eq_iff key k)) in
        record {
          bound = grind arith;
          counted = grind (arith, empty.0);
          used = grind arith;
          one = grind (arith, empty.1);
        }
    | inr miss ↦
        let old = h.serves k q (grind arith) in
        record {
          bound = omega (arith, old.bound);
          counted = grind (arith, old.bound, old.counted);
          used = grind (arith, old.used);
          one = grind (arith, old.bound, old.one);
        }
  ]

  enter_new-IsSound :
      l.locks key ≡ none
      → let x = reference key l none in IsSound (world x.1 (caller key l.next waiting ∷ cs))
  enter_new-IsSound e = record {
    pointed = (
      grind (arith, text_eq_refl key),
      All-imp (λ c. l.locks c.key ≡ some c.lock)
          (λ c. set_key l.locks key (some l.next) c.key ≡ some c.lock)
          (λ c f. grind (arith, text_eq_iff key c.key)) cs h.pointed,
    );
    apart = enter_new-apart e;
    serves = enter_new-Serves e;
  }

  pub enter-IsSound : let x = register key l in IsSound (world x.1 (caller key x.0 waiting ∷ cs))
  unfolding register
  enter-IsSound = elim (Option-cases (l.locks key)) [
    | inl none_yet ↦ rw none_yet (enter_new-IsSound none_yet)
    | inr (p, known) ↦ rw known (enter_old-IsSound p known)
  ]

-- A caller moves on to another phase, and its lock's channel changes with it.
module _ (l : LocalLocker) (before after : List Caller) (key : Text) (p : ℕ) (now later : Phase)
    (h : IsSound (world l (before ++ caller key p now ∷ after))) where
  abbrev moved : List Caller
  moved = before ++ caller key p later ∷ after

  pub its_lock : l.locks key ≡ some p
  its_lock =
      (All-without (λ c. l.locks c.key ≡ some c.lock) before (caller key p now) after h.pointed).0

  moved-pointed : All (λ c. l.locks c.key ≡ some c.lock) moved
  moved-pointed =
      let rest =
        All-without (λ c. l.locks c.key ≡ some c.lock) before (caller key p now) after h.pointed in
      All-with (λ c. l.locks c.key ≡ some c.lock) before (caller key p later) after rest.0 rest.1

  moved-mentions : (k : Text) → mentions k moved ≡ mentions k (before ++ caller key p now ∷ after)
  moved-mentions k =
      mentions-middle k before (caller key p later) after
      ∙ sym (mentions-middle k before (caller key p now) after)

  module _ (n : ℕ)
      (balance : n + hold_of key (caller key p later)
        ≡ (l.heap p).ready + hold_of key (caller key p now)) where
    moved-Serves : (k : Text) (q : ℕ) → l.locks k ≡ some q → Serves (set_ready n p l) moved k q
    moved-Serves k q f =
        let old = h.serves k q f in
        record {
          bound = old.bound;
          counted = grind (arith, old.counted, moved-mentions k);
          used = omega (arith, old.used, moved-mentions k);
          one = grind (
            arith,
            old.one,
            balance,
            its_lock,
            h.apart key k p its_lock,
            text_eq_iff key k,
            holders-middle k before (caller key p later) after,
            holders-middle k before (caller key p now) after,
          );
        }

    pub moved-IsSound : IsSound (world (set_ready n p l) moved)
    moved-IsSound = record { pointed = moved-pointed; apart = h.apart; serves = moved-Serves }

module _ (l : LocalLocker) (before after : List Caller) (key : Text) (p : ℕ)
    (h : IsSound (world l (before ++ caller key p leaving ∷ after))) where
  abbrev left : List Caller
  left = before ++ after

  left_lock : (l.locks key ≡ some p) × All (λ c. l.locks c.key ≡ some c.lock) left
  left_lock =
      All-without (λ c. l.locks c.key ≡ some c.lock) before (caller key p leaving) after h.pointed

  -- The reference count is never 0 before it is decremented.
  left_refs : (l.heap p).refs ≡ suc (mentions key left)
  left_refs = grind (
    arith,
    (h.serves key p left_lock.0).counted,
    text_eq_refl key,
    mentions-middle key before (caller key p leaving) after,
  )

  -- The key is forgotten when nobody else mentions it.
  left_locks :
      (k : Text)
      → (release_ref key p l).locks k
        ≡ (if mentions key left == 0 then set_key l.locks key none k else l.locks k)
  unfolding release_ref
  left_locks k = grind (arith, left_refs)

  left_heap :
      (q : ℕ)
      → (release_ref key p l).heap q ≡ (
          if p == q
          then record { ready = (l.heap p).ready; refs = mentions key left }
          else l.heap q)
  unfolding release_ref
  left_heap q = grind (arith, left_refs)

  leave-pointed : All (λ c. (release_ref key p l).locks c.key ≡ some c.lock) left
  leave-pointed = elim (Bool-cases (mentions key left == 0)) [
    | inl last ↦
        All-imp (λ c. (l.locks c.key ≡ some c.lock) × (text_eq c.key key ≡ false))
          (λ c. (release_ref key p l).locks c.key ≡ some c.lock)
          (λ c f. grind (arith, left_locks c.key, text_eq_iff key c.key, text_eq_iff c.key key))
          left
          (without_key (λ c. l.locks c.key ≡ some c.lock) key left
            ((==_iff (mentions key left) 0).0 last) left_lock.1)
    | inr more ↦
        All-imp (λ c. l.locks c.key ≡ some c.lock)
          (λ c. (release_ref key p l).locks c.key ≡ some c.lock)
          (λ c f. grind (arith, left_locks c.key)) left left_lock.1
  ]

  still : (k : Text) (q : ℕ) → (release_ref key p l).locks k ≡ some q → l.locks k ≡ some q
  still k q f = grind (arith, left_locks k)

  leave-Serves :
      (k : Text) (q : ℕ)
      → (release_ref key p l).locks k ≡ some q
      → Serves (release_ref key p l) left k q
  leave-Serves k q f =
      let old = h.serves k q (still k q f) in
      let heap = left_heap q in
      let count = mentions-middle k before (caller key p leaving) after in
      let held = holders-middle k before (caller key p leaving) after in
      let same = h.apart key k p left_lock.0 in
      record {
        bound = unfold release_ref in old.bound;
        counted =
            grind
              (arith, old.counted, heap, count, same, still k q f, left_lock.0, text_eq_iff key k);
        used = grind (arith, old.used, count, left_locks k, text_eq_iff key k);
        one = grind (arith, old.one, heap, held, same, still k q f, left_lock.0, text_eq_iff key k);
      }

  pub leave-IsSound : IsSound (world (release_ref key p l) left)
  leave-IsSound = record {
    pointed = leave-pointed;
    apart = λ j k q f g. h.apart j k q (still j q f) (still k q g);
    serves = leave-Serves;
  }
