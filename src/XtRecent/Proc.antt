-- ===== src/XtRecent/Proc.antt =====
-- src/xt_recent/xt_recent_proc.h and xt_recent_proc.cpp: reading /proc/net/xt_recent. RE2 is a
-- parameter: `partial_match row pattern` is what RE2::PartialMatch stores, if it matches.
pub mod Row
pub mod Directory
use ssyncd.Common.{ℕ, Option, none, some, List, [], ◌∷◌, ◌==◌, is_empty, if◌then◌else◌}
use ssyncd.Common.Bytes.{Bytes, codes}
use ssyncd.Common.Int.{ℤ, pos, negsuc}
use ssyncd.Common.Decimal.{stoi, stoul, tokens}
use ssyncd.Common.Ordered.{bytes_ordered}
use ssyncd.Common.Map.{Map, insert}
use ssyncd.Helpers.Utils.{c_str, ipv4}
use ssyncd.XtRecent.Entry.{XtRecentEntry, XtRecentTable}

-- The patterns as they stand in the array regs_patterns.
abbrev pub src_pattern : Bytes
src_pattern = codes "src=(\\d{1,3}.\\d{1,3}.\\d{1,3}.\\d{1,3})"

abbrev pub ttl_pattern : Bytes
ttl_pattern = codes ".*ttl: (\\d+)"

abbrev pub last_seen_pattern : Bytes
last_seen_pattern = codes ".*last_seen: (\\d+)"

abbrev pub oldest_pkt_pattern : Bytes
oldest_pkt_pattern = codes ".*oldest_pkt: (\\d+)"

abbrev pub timestamps_pattern : Bytes
timestamps_pattern = codes ".*oldest_pkt: \\d+ (.*)"

-- An int that a pattern of digits matched: it has no sign.
unfoldable pub natural : Option ℤ → Option ℕ
natural none = none
natural (some (pos n)) = some n
natural (some (negsuc n)) = none

-- The loop over the tokens: a token that is no number throws, and zeros are left out.
unfoldable pub parse_stamps : List Bytes → Option (List ℕ)
parse_stamps [] = some []
parse_stamps (token ∷ rest) = elim (stoul token) [
  | none ↦ none
  | some tmp ↦ elim (parse_stamps rest) [
    | none ↦ none
    | some stamps ↦ some (if tmp == 0 then stamps else tmp ∷ stamps)
  ]
]

module _ (partial_match : Bytes → Bytes → Option Bytes) where
  -- xt_recent_proc::parse_data
  unfoldable pub parse_data : Bytes → Bytes → Bytes
  parse_data str reg_pattern = elim (partial_match str reg_pattern) [ none ↦ [] | some res ↦ res ]

  -- xt_recent_proc::parse_file_row; `none` is an exception of stoi or stoul.
  unfoldable pub parse_file_row : Bytes → Option XtRecentEntry
  unfolding parse_data natural parse_stamps
  parse_file_row str_row = elim (natural (stoi (parse_data str_row oldest_pkt_pattern))) [
    | none ↦ none
    | some index ↦ elim (stoul (parse_data str_row last_seen_pattern)) [
      | none ↦ none
      | some seen ↦ elim (natural (stoi (parse_data str_row ttl_pattern))) [
        | none ↦ none
        | some ttl ↦
            elim (parse_stamps (tokens b',' (c_str (parse_data str_row timestamps_pattern)))) [
              | none ↦ none
              | some stamps ↦ some (record {
                src_ip = parse_data str_row src_pattern;
                ttl = ttl;
                last_seen = seen;
                last_seen_index = index;
                ip_family = ipv4;
                timestamps = stamps;
              })
            ]
      ]
    ]
  ]

  -- The loop of xt_recent_proc::get_table over the lines of the file.
  unfoldable pub read_rows : List Bytes → Map Bytes XtRecentEntry → Option (Map Bytes XtRecentEntry)
  unfolding parse_file_row
  read_rows [] m = some m
  read_rows (line ∷ lines) m = elim (parse_file_row line) [
    | none ↦ none
    | some e ↦ read_rows lines (if is_empty e.src_ip then m else insert e.src_ip e m)
  ]

  -- xt_recent_proc::get_table, where the file has these lines.
  unfoldable pub get_table : (Bytes → List Bytes) → Bytes → Option XtRecentTable
  unfolding read_rows
  get_table lines_of table_name = elim (read_rows (lines_of table_name) []) [
    | none ↦ none
    | some m ↦ some (record { name = table_name; entries = m })
  ]
