-- ===== src/XtRecent/Action.antt =====
-- src/xt_recent/xt_recent_action.h and .cpp
use ssyncd.Common.{ℕ, none, [], ◌==◌, if◌then◌else◌}
use ssyncd.Common.Bytes.{Bytes}
use ssyncd.Connection.Packet.{ConnPacket, conn_packet, xt_recent_sync}
use ssyncd.XtRecent.Entry.{XtRecentEntry, Indeterminate, new_entry}

-- enum action_type; a byte of the wire that names none of them is `other_action`.
pub data ActionType : Type 0 where
  add_upd_entry delete_entry flush_table delete_table : ActionType
  other_action : ℕ → ActionType

unfoldable pub action_code : ActionType → ℕ
action_code add_upd_entry = 1
action_code delete_entry = 2
action_code flush_table = 3
action_code delete_table = 4
action_code (other_action n) = n

-- (action_type) b
unfoldable pub action_of : ℕ → ActionType
action_of n =
    if n == 1
    then add_upd_entry
    else if n == 2
    then delete_entry
    else if n == 3
    then flush_table
    else if n == 4
    then delete_table
    else other_action n

-- class xt_recent_action. Its `action_timestamp` is never written or read.
pub record XtRecentAction : Type 0 where
  pub pkt : ConnPacket
  pub target_entry : XtRecentEntry
  pub action : ActionType
  pub xt_table_name : Bytes

-- xt_recent_action(action_type)
abbrev pub new_action : Indeterminate → ActionType → XtRecentAction
new_action g t = record {
  pkt = conn_packet xt_recent_sync;
  target_entry = new_entry g;
  action = t;
  xt_table_name = [];
}

-- xt_recent_action(conn_packet *): the header fields and not the fd
abbrev pub action_from_packet : Indeterminate → ActionType → ConnPacket → XtRecentAction
action_from_packet g t p = record {
  pkt = record p { fd = none };
  target_entry = new_entry g;
  action = t;
  xt_table_name = [];
}
