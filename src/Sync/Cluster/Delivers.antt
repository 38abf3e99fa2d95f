-- ===== src/Sync/Cluster/Delivers.antt =====
-- A packet that sync_backup::run of src/sync/sync_backup.cpp takes off the connection.
use mathlib.Core.Path.{subst}
use ssyncd.Common.{
  length, ◌+◌, ◌++◌, ℕ, ◌≡◌, ◌≢◌, refl, sym, ap, ◌∙◌, Option, none, some, List, [], ◌∷◌, arith,
}
use ssyncd.Common.Bytes.{Bytes}
use ssyncd.Connection.Cursor.{got}
use ssyncd.Connection.PacketParser.{written}
use ssyncd.Sync.PktParser.{serialize, deserialize, Packet, plain, recent, http, base_of, set_fd}
use ssyncd.Sync.PktParser.RoundTrip.{IsSendable, wire, serialize-wire, deserialize-wire, received}
use ssyncd.Connection.Packet.{xt_recent_sync}
use ssyncd.XtRecent.Action.{XtRecentAction}
use ssyncd.XtRecent.Parser.RoundTrip.{received_action}
use ssyncd.Sync.PktParser
use ssyncd.Sync.RecentData.{apply_recent_action, apply_all}
use ssyncd.Sync.Backup.{Backup, handle_packet, handle_recent, handle_http, reconnect}
use ssyncd.Sync.Backup.Resync.{sendable-HasType}
use ssyncd.Sync.Backup.Replica.{IsReplica, shared}
use ssyncd.Sync.Master.Apart.{recent_of}
use ssyncd.Sync.Cluster.View.{received-IsReplica}
use ssyncd.Sync.RecentData.Lookup.{entry_at}

-- What the backup does with a packet that is no action on the recent tables leaves them alone.
apart_lem :
    (p : Packet) (b b' : Backup)
    → ((x : XtRecentAction) → p ≢ recent x)
    → handle_packet [] p b ≡ some b'
    → b'.recent_data ≡ b.recent_data
unfolding handle_packet handle_recent handle_http reconnect
apart_lem (recent x) b b' n e = absurd (n x refl)
apart_lem (plain p) b b' n e = ground (arith, e)
apart_lem (http x) b b' n e = ground (arith, e)

recent_lem :
    (v : PktParser.Unset) (x : XtRecentAction) (fd size : ℕ) (b b' : Backup)
    → x.pkt.type ≡ xt_recent_sync
    → handle_packet [] (set_fd fd (received v (recent x) size)) b ≡ some b'
    → b'.recent_data ≡ (apply_recent_action b.recent_data (received_action v.entry x size)).0
unfolding handle_packet handle_recent received received_action set_fd apply_recent_action
recent_lem v x fd size b b' t e =
    let d = (apply_recent_action b.recent_data (received_action v.entry x size)).0 in
    let handled : handle_packet [] (set_fd fd (received v (recent x) size)) b
        ≡ some (record b { recent_data = d }) =
      rw t refl in
    sym (ap (λ (o : Option Backup). elim o [ none ↦ d | some z ↦ z.recent_data ]) (sym handled ∙ e))

-- The backup takes a packet off the wire: the view changes in nothing that a lookup sees.
view-received :
    (v : PktParser.Unset) (pkt : Packet) (rest : List Packet) (fd size : ℕ) (b b' : Backup)
    → IsSendable pkt
    → handle_packet [] (set_fd fd (received v pkt size)) b ≡ some b'
    → IsReplica
        (apply_all b.recent_data (recent_of (pkt ∷ rest)))
        (apply_all b'.recent_data (recent_of rest))
unfolding recent_of received set_fd
view-received v (plain p) rest fd size b b' k e name ip =
    ap (λ d. shared (entry_at (apply_all d (recent_of rest)) name ip))
      (sym (apart_lem (set_fd fd (received v (plain p) size)) b b' (λ x q. cc) e))
view-received v (http x) rest fd size b b' k e name ip =
    ap (λ d. shared (entry_at (apply_all d (recent_of rest)) name ip))
      (sym (apart_lem (set_fd fd (received v (http x) size)) b b' (λ y q. cc) e))
view-received v (recent x) rest fd size b b' k e name ip =
    received-IsReplica v.entry x size b.recent_data (recent_of rest) name ip
    ∙ ap (λ d. shared (entry_at (apply_all d (recent_of rest)) name ip))
        (sym (recent_lem v x fd size b b' (sendable-HasType k) e))

-- What the backup reads of a packet that the master serialised.
read_back :
    (w v : PktParser.Unset) (pkt pkt' : Packet) (out more left : Bytes) (n extra used : ℕ)
    → IsSendable pkt
    → serialize w pkt ≡ written out n
    → deserialize v (length out + extra) (out ++ more) ≡ got (some pkt') used left
    → (size : ℕ) × (pkt' ≡ received v pkt size)
read_back w v pkt pkt' out more left n extra used s e r =
    let (m, sent) = serialize-wire w s in
    let same : out ≡ wire s = cc (e, sent) in
    let back = deserialize-wire v s more extra in (length (wire s), cc (r, back, same))

pub view-delivers :
    (w v : PktParser.Unset) (pkt pkt' : Packet) (rest : List Packet) (out more left : Bytes)
    (n extra used fd : ℕ) (b b' : Backup)
    → IsSendable pkt
    → serialize w pkt ≡ written out n
    → deserialize v (length out + extra) (out ++ more) ≡ got (some pkt') used left
    → handle_packet [] (set_fd fd pkt') b ≡ some b'
    → IsReplica
        (apply_all b.recent_data (recent_of (pkt ∷ rest)))
        (apply_all b'.recent_data (recent_of rest))
view-delivers w v pkt pkt' rest out more left n extra used fd b b' s e r h =
    let (size, same) = read_back w v pkt pkt' out more left n extra used s e r in
    view-received v pkt rest fd size b b' s
      (subst (λ p. handle_packet [] (set_fd fd p) b ≡ some b') same h)
