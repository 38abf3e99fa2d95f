-- ===== src/Helpers/SafeQueue.antt =====
-- src/helpers/safe_queue.h: a queue that threads share. Every operation holds the mutex, so it runs as
-- one step; a thread in `cond_.wait` holds nothing. `dequeue` and `pop` do the same.
pub mod Order
use ssyncd.Common.{ℕ, zero, suc, ◌-◌, ◌<◌, ◌≡◌, Option, none, some, List, [], ◌∷◌, ◌++◌, length}

-- class safe_queue, with its threads: how many are in `cond_.wait`; how many are in `dequeue` and test
-- `queue_.empty()` next; and how many are in `enqueue` between the unlock and `notify_one`. `enqueued`
-- and `taken` are the items that went in and that came out, in order.
pub record SafeQueue {ℓ} (T : Type ℓ) : Type ℓ where
  pub queue : List T
  pub waiting : ℕ
  pub testing : ℕ
  pub notifying : ℕ
  pub enqueued : List T
  pub taken : List T

-- safe_queue(void)
abbrev pub new_queue {ℓ} : {T : Type ℓ} → SafeQueue T
new_queue = record {
  queue = [];
  waiting = 0;
  testing = 0;
  notifying = 0;
  enqueued = [];
  taken = [];
}

module _ {ℓ} {T : Type ℓ} where
  -- enqueue, up to the unlock
  unfoldable pub enqueue : T → SafeQueue T → SafeQueue T
  enqueue x s = record s {
    queue = s.queue ++ (x ∷ []);
    notifying = suc s.notifying;
    enqueued = s.enqueued ++ (x ∷ []);
  }

  -- A thread that waits is woken, and tests again.
  unfoldable pub wake : SafeQueue T → SafeQueue T
  wake s = record s { waiting = s.waiting - 1; testing = suc s.testing }

  wake_one : ℕ → SafeQueue T → SafeQueue T
  unfolding wake
  wake_one zero s = s
  wake_one (suc n) s = wake s

  -- cond_.notify_one(), which wakes a thread if there is one
  unfoldable pub notify_one : SafeQueue T → SafeQueue T
  unfolding wake_one
  notify_one s = wake_one s.waiting (record s { notifying = s.notifying - 1 })

  -- The call of dequeue.
  unfoldable pub call_dequeue : SafeQueue T → SafeQueue T
  call_dequeue s = record s { testing = suc s.testing }

  -- The test of the loop in dequeue: the thread waits, or leaves with the front.
  unfoldable pub dequeue : SafeQueue T → SafeQueue T
  dequeue s = elim s.queue [
    | [] ↦ record s { testing = s.testing - 1; waiting = suc s.waiting }
    | x ∷ q ↦ record s { testing = s.testing - 1; queue = q; taken = s.taken ++ (x ∷ []) }
  ]

  -- try_dequeue; `none` is nullptr
  unfoldable pub try_dequeue : SafeQueue T → SafeQueue T × Option T
  try_dequeue s = elim s.queue [
    | [] ↦ (s, none)
    | x ∷ q ↦ (record s { queue = q; taken = s.taken ++ (x ∷ []) }, some x)
  ]

  -- size
  unfoldable pub size : SafeQueue T → ℕ
  size s = length s.queue

  -- A step of some thread. A waiting thread may also wake for no reason.
  pub data Step (s t : SafeQueue T) : Type ℓ where
    enqueues : (x : T) → t ≡ enqueue x s → Step s t
    notifies : 0 < s.notifying → t ≡ notify_one s → Step s t
    calls : t ≡ call_dequeue s → Step s t
    dequeues : 0 < s.testing → t ≡ dequeue s → Step s t
    wakes : 0 < s.waiting → t ≡ wake s → Step s t
    tries : t ≡ (try_dequeue s).0 → Step s t

  -- What the threads lead to, in any order.
  pub data Reach (s : SafeQueue T) : SafeQueue T → Type ℓ where
    here : Reach s s
    next : {t u : SafeQueue T} → Reach s t → Step t u → Reach s u
