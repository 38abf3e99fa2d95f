-- ===== src/Sync/Master/Batch.antt =====
-- The batches of sync_master::run of src/sync/sync_master.cpp.
use ssyncd.Common.{
  ℕ, suc, ◌+◌, ◌≤◌, ◌≡◌, ◌⊎◌, refl, sym, ap, ◌∙◌, ◌==◌, List, [], ◌∷◌, ◌++◌, map, length, arith,
  inl, inr, append_assoc, append-nil, Bool-cases, ==_iff, if◌then◌else◌,
}
use ssyncd.XtRecent.Action.{XtRecentAction}
use ssyncd.Sync.PktParser.{Packet, recent}
use ssyncd.Sync.RecentData.{apply_recent_action, apply_all}
use ssyncd.Sync.Master.{Master, is_positive, send, handle_recent_action, recent_batch}

-- What goes to the other nodes: the actions, if there are any nodes.
abbrev pub forwarded : Master → List XtRecentAction → List Packet
forwarded s xs = if is_positive s.backup_servers_fd then map recent xs else []

-- How a batch splits the queue: what it took, and what it left.
pub record IsBatch (n : ℕ) (queue : List XtRecentAction) (s r : Master)
    (taken rest : List XtRecentAction) : Type 0 where
  pub split : queue ≡ taken ++ rest
  pub bounded : n + length taken ≤ 10
  pub full : (rest ≡ []) ⊎ (n + length taken ≡ 10)
  pub left : r.recent_queue ≡ rest
  pub tables : r.recent_data ≡ apply_all s.recent_data taken
  pub sends : r.sent ≡ s.sent ++ forwarded s taken

forwarded_nil : (s : Master) → s.sent ++ forwarded s [] ≡ s.sent
forwarded_nil s = ground (arith, append-nil s.sent)

handled_tables :
    (x : XtRecentAction) (s : Master)
    → (handle_recent_action x s).recent_data ≡ (apply_recent_action s.recent_data x).0
unfolding handle_recent_action send
handled_tables x s = ground arith

pub handled_nodes :
    (x : XtRecentAction) (s : Master)
    → (handle_recent_action x s).backup_servers_fd ≡ s.backup_servers_fd
unfolding handle_recent_action send
handled_nodes x s = ground arith

handled_sends :
    (x : XtRecentAction) (s : Master) (taken : List XtRecentAction)
    → (handle_recent_action x s).sent ++ forwarded (handle_recent_action x s) taken
      ≡ s.sent ++ forwarded s (x ∷ taken)
unfolding handle_recent_action send
handled_sends x s taken =
    ground (arith, append_assoc s.sent (recent x ∷ []) (map recent taken), append-nil s.sent)

-- The batch at an end of the queue, or after ten actions.
stop_lem :
    (n : ℕ) (xs : List XtRecentAction) (s r : Master)
    → n ≤ 10
    → (xs ≡ []) ⊎ (n ≡ 10)
    → r.recent_queue ≡ xs
    → r.recent_data ≡ s.recent_data
    → r.sent ≡ s.sent
    → IsBatch n xs s r [] xs
unfolding apply_all
stop_lem n xs s r h end left tables sends = record {
  split = refl;
  bounded = omega (arith, h);
  full = elim end [ inl e ↦ inl e | inr e ↦ inr (omega (arith, e)) ];
  left = left;
  tables = tables;
  sends = sends ∙ sym (forwarded_nil s);
}

-- An action of the batch before the rest of it.
step_lem :
    (n : ℕ) (x : XtRecentAction) (xs : List XtRecentAction) (s r : Master)
    (taken rest : List XtRecentAction)
    → IsBatch (suc n) xs (handle_recent_action x s) r taken rest
    → IsBatch n (x ∷ xs) s r (x ∷ taken) rest
unfolding apply_all
step_lem n x xs s r taken rest b = record {
  split = ap (λ z. x ∷ z) b.split;
  bounded = omega (arith, b.bounded);
  full = elim b.full [ inl e ↦ inl e | inr e ↦ inr (omega (arith, e)) ];
  left = b.left;
  tables = b.tables ∙ ap (λ d. apply_all d taken) (handled_tables x s);
  sends = b.sends ∙ handled_sends x s taken;
}

batch_lem :
    (n : ℕ) (xs : List XtRecentAction) (s : Master)
    → n ≤ 10
    → (taken : List XtRecentAction) × (rest : List XtRecentAction) × IsBatch n xs s
        (recent_batch n xs s)
        taken
        rest
unfolding recent_batch
batch_lem n [] s h =
    ([], [], stop_lem n [] s _ h (inl refl) (ground arith) (ground arith) (ground arith))
batch_lem n (x ∷ xs) s h = elim (Bool-cases (n == 10)) [
  | inl y ↦ rw y ([], x ∷ xs, stop_lem n (x ∷ xs) s _ h (inr ((==_iff n 10).0 y)) refl refl refl)
  | inr y ↦
      let (taken, rest, b) =
        batch_lem (suc n) xs (handle_recent_action x s) (ground (arith, h, y, ==_iff n 10)) in
      rw y (x ∷ taken, rest, step_lem n x xs s _ taken rest b)
]

-- A batch takes the first ten actions of the queue, or all if there are fewer, and leaves the others;
-- it applies those that it takes, in order, and, if there are other nodes, gives each of them to
-- send_packet, in order, once.
pub recent_batch-IsBatch :
    (s : Master)
    → (taken : List XtRecentAction) × (rest : List XtRecentAction) × IsBatch 0 s.recent_queue s
        (recent_batch 0 s.recent_queue s)
        taken
        rest
recent_batch-IsBatch s = batch_lem 0 s.recent_queue s (omega arith)
