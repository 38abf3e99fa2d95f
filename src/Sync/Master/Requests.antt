-- ===== src/Sync/Master/Requests.antt =====
-- How sync_master::handle_recent_sync of src/sync/sync_master.cpp answers a backup.
use mathlib.Core.Path.{subst}
use ssyncd.Common.{
  zero, suc, ◌+◌, ◌<◌, ◌⊎◌, false, take, sym, ap, append-nil, length-append, ℕ, ◌≡◌, refl, ◌∙◌,
  Bool, true, List, [], ◌∷◌, ◌++◌, append_assoc, arith, length, Bool-cases, inl, inr,
}
use ssyncd.XtRecent.Action.{XtRecentAction}
use ssyncd.Sync.PktParser.{Packet, recent, set_fd}
use ssyncd.Sync.RecentData.{all_actions}
use ssyncd.Sync.Backup.Resync.{recent_packets}
use ssyncd.Sync.Master.{Master, Unset, send, send_recent, handle_recent_sync}

-- The calls of send_packet from the n-th on, `count` of them, all worked.
abbrev pub AllWorked : (ℕ → Bool) → ℕ → ℕ → Type 0
AllWorked ok n count = (i : ℕ) → i < count → ok (n + i) ≡ true

-- Since `s`, all packets were given to send_packet, each call worked, and the result is true; or the first
-- call that failed was for the packet number `j`, it is the last that was given, and the result is false.
abbrev pub IsAnswer : (ℕ → Bool) → Master → List Packet → Master × Bool → Type 0
IsAnswer ok s all r =
    (r.0.recent_data ≡ s.recent_data)
    × ((AllWorked ok (length s.sent) (length all) × (r.0.sent ≡ s.sent ++ all) × (r.1 ≡ true))
        ⊎ ((j : ℕ) × (j < length all)
            × AllWorked ok (length s.sent) j
            × (ok (length s.sent + j) ≡ false)
            × (r.0.sent ≡ s.sent ++ take (suc j) all)
            × (r.1 ≡ false)))

sent_one : (s : Master) (p : Packet) → length (s.sent ++ (p ∷ [])) ≡ suc (length s.sent)
sent_one s p = omega (arith, length-append s.sent (p ∷ []))

add_zero : (n : ℕ) → n + 0 ≡ n
add_zero n = omega arith

add_suc : (n i : ℕ) → n + suc i ≡ suc n + i
add_suc n i = omega arith

one_more :
    (ok : ℕ → Bool) (n count : ℕ)
    → ok n ≡ true
    → AllWorked ok (suc n) count
    → AllWorked ok n (suc count)
one_more ok n count y h zero k = ap ok (add_zero n) ∙ y
one_more ok n count y h (suc i) k = ap ok (add_suc n i) ∙ h i (omega (arith, k))

went_on :
    (ok : ℕ → Bool) (s : Master) (p : Packet) (ps : List Packet) (r : Master × Bool)
    → ok (length s.sent) ≡ true
    → IsAnswer ok (send p s) ps r
    → IsAnswer ok s (p ∷ ps) r
unfolding send
went_on ok s p ps r y (same, inl (all, e, w)) = (
  same,
  inl (
    one_more ok (length s.sent) (length ps) y
        (subst (λ n. AllWorked ok n (length ps)) (sent_one s p) all),
    e ∙ append_assoc s.sent (p ∷ []) ps,
    w,
  ),
)
went_on ok s p ps r y (same, inr (j, k, all, n, e, w)) = (
  same,
  inr (
    suc j,
    omega (arith, k),
    one_more ok (length s.sent) j y (subst (λ n. AllWorked ok n j) (sent_one s p) all),
    ap ok (add_suc (length s.sent) j) ∙ subst (λ m. ok (m + j) ≡ false) (sent_one s p) n,
    e ∙ append_assoc s.sent (p ∷ []) (take (suc j) ps),
    w,
  ),
)

send_recent-IsAnswer :
    (ok : ℕ → Bool) (fd : ℕ) (xs : List XtRecentAction) (s : Master)
    → IsAnswer ok s (recent_packets fd xs) (send_recent ok fd xs s)
unfolding send_recent recent_packets send
send_recent-IsAnswer ok fd [] s =
    (refl, inl ((λ i k. absurd (omega (arith, k))), sym (append-nil s.sent), refl))
send_recent-IsAnswer ok fd (x ∷ xs) s =
    let p : Packet = set_fd fd (recent x) in
    elim (Bool-cases (ok (length s.sent))) [
      | inl y ↦ rw y (
          went_on ok s p (recent_packets fd xs) (send_recent ok fd xs (send p s)) y
            (send_recent-IsAnswer ok fd xs (send p s)))
      | inr n ↦ rw n (
        refl,
        inr (
          0,
          omega arith,
          (λ i k. absurd (omega (arith, k))),
          ap ok (add_zero _) ∙ n,
          refl,
          refl,
        ),
      )
    ]

-- A SYNC_REQUEST is answered with one packet for each entry of the tables, addressed to the node that
-- asked, in the order of the tables and addresses. Where every send_packet works, all of them are sent
-- and the result is true. Where one fails, it is the last that is called, and the result is false. The
-- tables do not change.
pub handle_recent_sync-IsAnswer :
    (ok : ℕ → Bool) (u : Unset) (fd : ℕ) (s : Master)
    → IsAnswer ok s
        (recent_packets fd (all_actions u.entry s.recent_data))
        (handle_recent_sync ok u fd s)
unfolding handle_recent_sync
handle_recent_sync-IsAnswer ok u fd s =
    send_recent-IsAnswer ok fd (all_actions u.entry s.recent_data) s
