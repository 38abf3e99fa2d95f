-- ===== src/Sync/Master/Apart.antt =====
-- What sync_master::run of src/sync/sync_master.cpp does for the HTTP sessions leaves the recent tables
-- alone.
use ssyncd.Common.{
  ℕ, suc, ◌≡◌, refl, sym, ap, ◌∙◌, Bool, true, false, List, [], ◌∷◌, ◌++◌, append_assoc, append-nil,
  is_empty, Bool-cases, inl, inr, ◌==◌,
}
use ssyncd.XtRecent.Action.{XtRecentAction}
use ssyncd.Http.Session.{HttpAction}
use ssyncd.Sync.PktParser.{Packet, plain, recent, http, set_fd}
use ssyncd.Sync.HttpData.{HttpData}
use ssyncd.Sync.Master.{
  Master, Unset, send, send_http, handle_http_sync, all_http_actions, clear_request, clear_farms,
  is_farm_event, handle_farm_event, handle_http_action, is_positive, http_batch, http_phase,
}

-- The actions on recent tables among packets.
unfoldable pub recent_of : List Packet → List XtRecentAction
recent_of [] = []
recent_of (plain p ∷ ps) = recent_of ps
recent_of (recent x ∷ ps) = x ∷ recent_of ps
recent_of (http x ∷ ps) = recent_of ps

pub recent_of-append : (ps qs : List Packet) → recent_of (ps ++ qs) ≡ recent_of ps ++ recent_of qs
unfolding recent_of
recent_of-append [] qs = refl
recent_of-append (plain p ∷ ps) qs = recent_of-append ps qs
recent_of-append (recent x ∷ ps) qs = ap (λ z. x ∷ z) (recent_of-append ps qs)
recent_of-append (http x ∷ ps) qs = recent_of-append ps qs

-- Nothing of the recent tables changed, and no action on them was sent.
pub record IsApart (s s' : Master) : Type 0 where
  pub tables : s'.recent_data ≡ s.recent_data
  pub nodes : s'.backup_servers_fd ≡ s.backup_servers_fd
  pub queue : s'.recent_queue ≡ s.recent_queue
  pub new : List Packet
  pub sends : s'.sent ≡ s.sent ++ new
  pub others : recent_of new ≡ []

-- A change that sends nothing, and one that sends an HTTP action.
unsent :
    (s s' : Master)
    → s'.recent_data ≡ s.recent_data
    → s'.backup_servers_fd ≡ s.backup_servers_fd
    → s'.recent_queue ≡ s.recent_queue
    → s'.sent ≡ s.sent
    → IsApart s s'
unfolding recent_of
unsent s s' t n q e = record {
  tables = t;
  nodes = n;
  queue = q;
  new = [];
  sends = e ∙ sym (append-nil s.sent);
  others = refl;
}

sent_http :
    (x : HttpAction) (s s' : Master)
    → s'.recent_data ≡ s.recent_data
    → s'.backup_servers_fd ≡ s.backup_servers_fd
    → s'.recent_queue ≡ s.recent_queue
    → s'.sent ≡ s.sent ++ (http x ∷ [])
    → IsApart s s'
unfolding recent_of
sent_http x s s' t n q e = record {
  tables = t;
  nodes = n;
  queue = q;
  new = http x ∷ [];
  sends = e;
  others = refl;
}

IsApart-trans : (s t u : Master) → IsApart s t → IsApart t u → IsApart s u
IsApart-trans s t u h k = record {
  tables = k.tables ∙ h.tables;
  nodes = k.nodes ∙ h.nodes;
  queue = k.queue ∙ h.queue;
  new = h.new ++ k.new;
  sends = k.sends ∙ ap (λ z. z ++ k.new) h.sends ∙ append_assoc s.sent h.new k.new;
  others = recent_of-append h.new k.new ∙ ap (λ z. z ++ recent_of k.new) h.others ∙ k.others;
}

send_http-IsApart : (fd : ℕ) (xs : List HttpAction) (s : Master) → IsApart s (send_http fd xs s)
unfolding send_http send set_fd recent_of
send_http-IsApart fd [] s = unsent s s refl refl refl refl
send_http-IsApart fd (x ∷ xs) s =
    IsApart-trans s (send (set_fd fd (http x)) s) _ (sent_http _ s _ refl refl refl refl)
      (send_http-IsApart fd xs _)

pub handle_http_sync-IsApart :
    (running : Bool) (u : Unset) (fd : ℕ) (s : Master)
    → IsApart s (handle_http_sync running u fd s).0
unfolding handle_http_sync
handle_http_sync-IsApart true u fd s =
    send_http-IsApart fd (all_http_actions u.action s.http_session_data) s
handle_http_sync-IsApart false u fd s = unsent s s refl refl refl refl

clear_farms-IsApart : (u : Unset) (d : HttpData) (s : Master) → IsApart s (clear_farms u d s)
unfolding clear_farms send clear_request recent_of
clear_farms-IsApart u [] s = unsent s _ refl refl refl refl
clear_farms-IsApart u ((farm, v) ∷ m) s =
    IsApart-trans s (send (clear_request u farm) s) _ (sent_http _ s _ refl refl refl refl)
      (clear_farms-IsApart u m _)

handle_farm_event-IsApart :
    (u : Unset) (x : HttpAction) (s : Master) → IsApart s (handle_farm_event u x s)
unfolding handle_farm_event send clear_request recent_of
handle_farm_event-IsApart u x s = sent_http _ s _ refl refl refl refl

handle_http_action-IsApart : (x : HttpAction) (s : Master) → IsApart s (handle_http_action x s)
unfolding handle_http_action send recent_of
handle_http_action-IsApart x s = elim (Bool-cases (is_positive s.backup_servers_fd)) [
  | inl y ↦ rw (y, handle_http_action) (sent_http _ s _ refl refl refl refl)
  | inr n ↦ rw (n, handle_http_action) (unsent s _ refl refl refl refl)
]

http_batch-IsApart :
    (u : Unset) (n : ℕ) (xs : List HttpAction) (s : Master) → IsApart s (http_batch u n xs s)
unfolding http_batch
http_batch-IsApart u n [] s = elim (Bool-cases (n == 10)) [
  | inl y ↦ rw y (unsent s _ refl refl refl refl)
  | inr m ↦ rw m (unsent s _ refl refl refl refl)
]
http_batch-IsApart u n (x ∷ xs) s = elim (Bool-cases (n == 10)) [
  | inl y ↦ rw y (unsent s _ refl refl refl refl)
  | inr m ↦ elim (Bool-cases (is_farm_event x.pkt.type)) [
    | inl y ↦
        rw (m, y)
          (IsApart-trans s (handle_farm_event u x s) _ (handle_farm_event-IsApart u x s)
            (http_batch-IsApart u n xs (handle_farm_event u x s)))
    | inr k ↦
        rw (m, k)
          (IsApart-trans s (handle_http_action x s) _ (handle_http_action-IsApart x s)
            (http_batch-IsApart u (suc n) xs (handle_http_action x s)))
  ]
]

pub http_phase-IsApart :
    (running : Bool) (u : Unset) (s : Master) → IsApart s (http_phase running u s)
unfolding http_phase
http_phase-IsApart true u s = http_batch-IsApart u 0 s.http_queue s
http_phase-IsApart false u s = elim (Bool-cases (is_empty s.http_session_data)) [
  | inl y ↦ rw y (unsent s _ refl refl refl refl)
  | inr n ↦ rw n (clear_farms-IsApart u s.http_session_data s)
]
