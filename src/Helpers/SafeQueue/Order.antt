-- ===== src/Helpers/SafeQueue/Order.antt =====
-- What the threads that share a queue of src/helpers/safe_queue.h can rely on.
use ssyncd.Common.{
  ℕ, zero, suc, ◌+◌, List, ◌≤◌, ◌<◌, ◌≡◌, refl, [], ◌∷◌, ◌++◌, append_assoc, append-nil, arith,
  length, length-append,
}
use ssyncd.Helpers.SafeQueue.{
  SafeQueue, new_queue, Step, enqueues, notifies, calls, dequeues, wakes, tries, Reach, here, next,
  enqueue, notify_one, wake, call_dequeue, dequeue, try_dequeue,
}

-- What holds between two steps.
pub record IsOrdered {ℓ} {T : Type ℓ} (s : SafeQueue T) : Type ℓ where
  pub fifo : s.enqueued ≡ s.taken ++ s.queue
  pub awake : 0 < s.waiting → length s.queue ≤ s.notifying + s.testing

module _ {ℓ} {T : Type ℓ} where
  dequeue-IsOrdered :
      (s : SafeQueue T) (q : List T)
      → s.queue ≡ q
      → 0 < s.testing
      → IsOrdered s
      → IsOrdered (dequeue s)
  unfolding dequeue
  dequeue-IsOrdered s [] e n h = ground (arith, h.fifo, append-nil s.taken)
  dequeue-IsOrdered s (x ∷ q) e n h = ground (arith, h.fifo, append_assoc s.taken (x ∷ []) q)

  try_dequeue-IsOrdered :
      (s : SafeQueue T) (q : List T) → s.queue ≡ q → IsOrdered s → IsOrdered (try_dequeue s).0
  unfolding try_dequeue
  try_dequeue-IsOrdered s [] e h = ground (arith, h.fifo)
  try_dequeue-IsOrdered s (x ∷ q) e h = ground (arith, h.fifo, append_assoc s.taken (x ∷ []) q)

  notify_one-IsOrdered :
      (s : SafeQueue T) (w : ℕ)
      → s.waiting ≡ w
      → 0 < s.notifying
      → IsOrdered s
      → IsOrdered (notify_one s)
  unfolding notify_one
  notify_one-IsOrdered s zero e n h =
      rw (e, notify_one) (record { fifo = h.fifo; awake = λ a. absurd (omega arith) })
  notify_one-IsOrdered s (suc w) e n h =
      rw (e, notify_one)
        (record { fifo = h.fifo; awake = λ a. omega (arith, h.awake (omega arith)) })

  Step-IsOrdered : {s t : SafeQueue T} → Step s t → IsOrdered s → IsOrdered t
  unfolding enqueue wake call_dequeue
  Step-IsOrdered {s} (enqueues x e) h = rw e (record {
    fifo = ground (arith, h.fifo, append_assoc s.taken s.queue (x ∷ []));
    awake = λ w. ground (arith, h.awake w, length-append s.queue (x ∷ []));
  })
  Step-IsOrdered {s} (notifies n e) h = rw e (notify_one-IsOrdered s s.waiting refl n h)
  Step-IsOrdered {s} (calls e) h = ground (arith, h.fifo)
  Step-IsOrdered {s} (dequeues n e) h = rw e (dequeue-IsOrdered s s.queue refl n h)
  Step-IsOrdered {s} (wakes n e) h = ground (arith, h.fifo)
  Step-IsOrdered {s} (tries e) h = rw e (try_dequeue-IsOrdered s s.queue refl h)

  -- Whatever the threads do, in any order, from a new queue on: the items come out in the order in
  -- which they went in, each once, and those that are left are the rest. No wake-up is lost: while a
  -- thread waits, every item of the queue has a thread of its own that is about to notify one, or
  -- that tests the queue next.
  pub Reach-IsOrdered : {s : SafeQueue T} → Reach new_queue s → IsOrdered s
  Reach-IsOrdered here = ground arith
  Reach-IsOrdered (next r st) = Step-IsOrdered st (Reach-IsOrdered r)
