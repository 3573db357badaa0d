-- ===== src/Lock/Local.antt =====
-- The locker of one process: `localLocker` and the goroutines that use it. The heap is explicit, since
-- a goroutine keeps its pointer to a lock while the map may lose it.
use grafana_mcp_setup.Prelude.{
  ℕ, ◌+◌, ◌-◌, ◌≡◌, Option, none, some, List, [], ◌∷◌, ◌++◌, Text, text_eq, ◌==◌, if◌then◌else◌,
}

-- type localLock; `ready` is the number of values in its channel, whose capacity is 1.
pub record LocalLock : Type 0 where
  pub ready : ℕ
  pub refs : ℕ

-- type localLocker, with the locks that it has allocated.
pub record LocalLocker : Type 0 where
  pub locks : Text → Option ℕ
  pub heap : ℕ → LocalLock
  pub next : ℕ

abbrev pub set_key : (Text → Option ℕ) → Text → Option ℕ → Text → Option ℕ
set_key locks key value k = if text_eq key k then value else locks k

abbrev pub set_at : (ℕ → LocalLock) → ℕ → LocalLock → ℕ → LocalLock
set_at heap p lock q = if p == q then lock else heap q

-- newLocalLocker
abbrev pub new_local_locker : LocalLocker
new_local_locker = record {
  locks = λ key. none;
  heap = λ p. record { ready = 0; refs = 0 };
  next = 0;
}

abbrev pub reference : Text → LocalLocker → Option ℕ → ℕ × LocalLocker
reference key l (some p) = (
  p,
  record l {
    heap = set_at l.heap p (record { ready = (l.heap p).ready; refs = (l.heap p).refs + 1 });
  },
)
reference key l none = (
  l.next,
  record {
    locks = set_key l.locks key (some l.next);
    heap = set_at l.heap l.next (record { ready = 1; refs = 1 });
    next = l.next + 1;
  },
)

-- The part of `Acquire` under the mutex.
unfoldable pub register : Text → LocalLocker → ℕ × LocalLocker
register key l = reference key l (l.locks key)

-- Reading from the channel of a lock, and sending to it.
abbrev pub set_ready : ℕ → ℕ → LocalLocker → LocalLocker
set_ready n p l = record l { heap = set_at l.heap p (record { ready = n; refs = (l.heap p).refs }) }

-- The part of `releaseRef` under the mutex; Sound has a lemma that `refs` is not 0 before it.
unfoldable pub release_ref : Text → ℕ → LocalLocker → LocalLocker
release_ref key p l =
    let refs = (l.heap p).refs - 1 in
    record {
      locks = if refs == 0 then set_key l.locks key none else l.locks;
      heap = set_at l.heap p (record { ready = (l.heap p).ready; refs = refs });
      next = l.next;
    }

-- Where a goroutine is in `Acquire` and `Release`: at the select, in the guarded operation, or before
-- the mutex of `releaseRef`.
pub data Phase : Type 0 where
  waiting holding leaving : Phase

pub record Caller : Type 0 where
  pub key : Text
  pub lock : ℕ
  pub phase : Phase

pub record World : Type 0 where
  pub locker : LocalLocker
  pub callers : List Caller

abbrev pub caller : Text → ℕ → Phase → Caller
caller key p phase = record { key = key; lock = p; phase = phase }

abbrev pub world : LocalLocker → List Caller → World
world l callers = record { locker = l; callers = callers }

-- One step of one goroutine. The select takes either branch that is ready; a send waits while the
-- channel is full; `sync.Once` lets a guard be released once.
pub data Step : World → World → Type 0 where
  enter :
      (l : LocalLocker) (cs : List Caller) (key : Text)
      → Step (world l cs) (world (register key l).1 (caller key (register key l).0 waiting ∷ cs))
  take :
      (l : LocalLocker) (before after : List Caller) (key : Text) (p : ℕ)
      → (l.heap p).ready ≡ 1
      → Step
          (world l (before ++ caller key p waiting ∷ after))
          (world (set_ready 0 p l) (before ++ caller key p holding ∷ after))
  cancel :
      (l : LocalLocker) (before after : List Caller) (key : Text) (p : ℕ)
      → Step
          (world l (before ++ caller key p waiting ∷ after))
          (world l (before ++ caller key p leaving ∷ after))
  send :
      (l : LocalLocker) (before after : List Caller) (key : Text) (p : ℕ)
      → (l.heap p).ready ≡ 0
      → Step
          (world l (before ++ caller key p holding ∷ after))
          (world (set_ready 1 p l) (before ++ caller key p leaving ∷ after))
  leave :
      (l : LocalLocker) (before after : List Caller) (key : Text) (p : ℕ)
      → Step
          (world l (before ++ caller key p leaving ∷ after))
          (world (release_ref key p l) (before ++ after))

-- The worlds that a new locker reaches.
pub data Reach : World → Type 0 where
  start : Reach (world new_local_locker [])
  next : {v w : World} → Reach v → Step v w → Reach w
