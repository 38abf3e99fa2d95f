-- ===== src/Tests/Data.antt =====
-- Objects of the classes under src/xt_recent, src/http and src/connection, as the tests use them.
use ssyncd.Common.{some, [], ◌∷◌, arith, refl, Option, length, ◌==◌, if◌then◌else◌, ◌++◌}
use ssyncd.Common.Bytes.{Bytes, codes}
use ssyncd.Common.Decimal.{to_string}
use ssyncd.XtRecent.Proc.{src_pattern, ttl_pattern, last_seen_pattern, oldest_pkt_pattern}
use ssyncd.XtRecent.Proc.Row.{more_stamps}
use ssyncd.Helpers.Utils.{ipv4, dotted, family_code, family_of}
use ssyncd.Connection.Packet.{
  ConnPacket, conn_packet, packet_code, packet_type_of, xt_recent_sync, http_sync,
}
use ssyncd.Connection.Receive.{ConnectionEventData}
use ssyncd.XtRecent.Entry
use ssyncd.XtRecent.Entry.{XtRecentEntry, XtRecentTable}
use ssyncd.XtRecent.Action.{XtRecentAction, add_upd_entry, action_code, action_of}
use ssyncd.XtRecent.Parser.RoundTrip.{Address}
use ssyncd.XtRecent.Parser.RoundTrip as Recent
use ssyncd.Http.Session
use ssyncd.Http.Session.{HttpAction, HttpSession, sess_add, http_action_code, http_action_of}
use ssyncd.Http.Parser.RoundTrip as Pound
use ssyncd.Sync.PktParser.{Unset}
use ssyncd.Sync.RecentData.{RecentData}
use ssyncd.Sync.RecentData.Bulk.{IsValid}
use ssyncd.Sync.HttpData.{HttpData}

abbrev pub table_name : Bytes
table_name = codes "ssh"

abbrev pub no_entry : Entry.Indeterminate
no_entry = record { ttl = 3; last_seen = 1; last_seen_index = 9; ip_family = ipv4 }

abbrev pub no_action : Session.Indeterminate
no_action = record { service = 7; listener = 7; backend = 7; backend_id = 7; last_acc = 7 }

abbrev pub memory : Unset
memory = record { heap = λ n. []; entry = no_entry; action = no_action }

abbrev pub address : Address
address = record { a = 10; b = 0; c = 0; d = 7 }

abbrev pub entry : XtRecentEntry
entry = record {
  src_ip = dotted 10 0 0 7;
  ttl = 64;
  last_seen = 9;
  last_seen_index = 2;
  ip_family = ipv4;
  timestamps = 5 ∷ 9 ∷ [];
}

abbrev pub recent_packet : ConnPacket
recent_packet = record {
  fd = some 4;
  type = xt_recent_sync;
  header_1 = 0xef;
  header_2 = 0xab;
  pkt_len = 0;
}

abbrev pub recent_action : XtRecentAction
recent_action = record {
  pkt = recent_packet;
  target_entry = entry;
  action = add_upd_entry;
  xt_table_name = table_name;
}

pub recent-IsSendable : Recent.IsSendable address recent_action
unfolding packet_code packet_type_of action_code action_of family_code family_of
recent-IsSendable = record {
  header = record {
    first = omega arith;
    second = omega arith;
    code_byte = omega arith;
    known = refl;
  };
  type = refl;
  action_byte = omega arith;
  action_known = refl;
  family_byte = omega arith;
  family_known = refl;
  source = refl;
  byte_a = omega arith;
  byte_b = omega arith;
  byte_c = omega arith;
  byte_d = omega arith;
  index_byte = omega arith;
  ttl_byte = omega arith;
  count = omega arith;
  stamps = (omega arith, (omega arith, tt));
  name = (omega arith, (omega arith, (omega arith, tt)));
  short = omega arith;
}

abbrev pub session : HttpSession
session = record { key = codes "k"; backend_id = 2; content = codes "v"; last_acc = 1500000000 }

abbrev pub http_action : HttpAction
http_action = record {
  pkt = conn_packet http_sync;
  action = sess_add;
  service = 1;
  listener = 300;
  backend = 2;
  session = session;
  farm_name = codes "web";
}

pub http-IsSendable : Pound.IsSendable http_action
unfolding packet_code packet_type_of http_action_code http_action_of
http-IsSendable = record {
  header = record {
    first = omega arith;
    second = omega arith;
    code_byte = omega arith;
    known = refl;
  };
  type = refl;
  action_byte = omega arith;
  action_known = refl;
  farm_short = omega arith;
  key_short = omega arith;
  content_short = omega arith;
  stamp = omega arith;
}

abbrev pub table : XtRecentTable
table = record { name = table_name; entries = (dotted 10 0 0 7, entry) ∷ [] }

abbrev pub tables : RecentData
tables = (table_name, table) ∷ []

abbrev pub sessions : HttpData
sessions = (codes "web", (300, (1, record { sessions = (codes "k", session) ∷ [] }) ∷ []) ∷ []) ∷ []

abbrev pub empty_buffer : ConnectionEventData
empty_buffer = record { fd = 8; buffer = []; buffer_size = 0 }

pub tables-IsValid : IsValid tables
tables-IsValid = ((tt, tt), (((tt, tt), (refl, tt)), tt))

-- A match of the patterns that always finds these texts.
abbrev pub partial_match : Bytes → Bytes → Option Bytes
partial_match row pattern =
    if length pattern == length src_pattern
    then some (dotted 10 0 0 7)
    else if length pattern == length ttl_pattern
    then some (to_string 64)
    else if length pattern == length last_seen_pattern
    then some (to_string 9)
    else if length pattern == length oldest_pkt_pattern
    then some (to_string 2)
    else some (to_string 5 ++ more_stamps (0 ∷ 9 ∷ []))
