-- ===== src/XtRecent/Entry.antt =====
-- src/xt_recent/xt_recent_entry.cpp and xt_recent_table.h
use ssyncd.Common.{
  ℕ, ◌-◌, Option, none, some, List, [], ◌∷◌, ◌++◌, length, get_elem?, leb, ◌==◌, if◌then◌else◌,
}
use ssyncd.Common.Bytes.{Bytes, codes}
use ssyncd.Common.Decimal.{to_string}
use ssyncd.Common.Map.{Map}
use ssyncd.Helpers.Utils.{IpFamily}

-- class xt_recent_entry. The numbers are never negative: they come from `\d+` or from a byte.
pub record XtRecentEntry : Type 0 where
  pub src_ip : Bytes
  pub ttl : ℕ
  pub last_seen : ℕ
  pub last_seen_index : ℕ
  pub ip_family : IpFamily
  pub timestamps : List ℕ

-- What the fields of an entry that no constructor sets happen to hold.
pub record Indeterminate : Type 0 where
  pub ttl : ℕ
  pub last_seen : ℕ
  pub last_seen_index : ℕ
  pub ip_family : IpFamily

-- xt_recent_entry()
abbrev pub new_entry : Indeterminate → XtRecentEntry
new_entry g = record {
  src_ip = [];
  ttl = g.ttl;
  last_seen = g.last_seen;
  last_seen_index = g.last_seen_index;
  ip_family = g.ip_family;
  timestamps = [];
}

unfoldable pub set_src_ip : XtRecentEntry → Bytes → XtRecentEntry
set_src_ip e src_ip = record e { src_ip = src_ip }

unfoldable pub set_ttl : XtRecentEntry → ℕ → XtRecentEntry
set_ttl e ttl = record e { ttl = ttl }

unfoldable pub set_last_seen : XtRecentEntry → ℕ → XtRecentEntry
set_last_seen e last_seen = record e { last_seen = last_seen }

unfoldable pub set_oldest_pkt_index : XtRecentEntry → ℕ → XtRecentEntry
set_oldest_pkt_index e i = record e { last_seen_index = i }

unfoldable pub get_oldest_pkt_index : XtRecentEntry → ℕ
get_oldest_pkt_index e = e.last_seen_index

-- timestamps[get_oldest_pkt_index() - 1]; `none` is a read outside of the vector.
unfoldable pub get_last_seen : XtRecentEntry → Option ℕ
unfolding get_oldest_pkt_index
get_last_seen e =
    if get_oldest_pkt_index e == 0
    then none
    else get_elem? e.timestamps (get_oldest_pkt_index e - 1)

insert_sorted : ℕ → List ℕ → List ℕ
insert_sorted x [] = x ∷ []
insert_sorted x (y ∷ ys) = if leb x y then x ∷ y ∷ ys else y ∷ insert_sorted x ys

-- std::sort of the timestamps
unfoldable pub sort : List ℕ → List ℕ
unfolding insert_sorted
sort [] = []
sort (x ∷ xs) = insert_sorted x (sort xs)

-- ' ' + std::to_string(stamp), for each timestamp
unfoldable pub show_stamps : List ℕ → Bytes
show_stamps [] = []
show_stamps (t ∷ ts) = (b' ' ∷ to_string t) ++ show_stamps ts

-- xt_recent_entry::to_string: the entry as it is left, and the text. `none` is the read of
-- timestamps[-1] when there is no timestamp.
unfoldable pub show_entry : XtRecentEntry → Option (XtRecentEntry × Bytes)
unfolding get_last_seen
show_entry e =
    let sorted = sort e.timestamps in
    let e' : XtRecentEntry = record e { timestamps = sorted; last_seen_index = length sorted } in
    elim (get_last_seen e') [
      | none ↦ none
      | some seen ↦ some (
        e',
        codes " src: "
            ++ (e'.src_ip
                ++ (codes "ttl: "
                    ++ (to_string e'.ttl
                        ++ (codes " last seen: "
                            ++ (to_string seen
                                ++ (codes " old packets: "
                                    ++ (to_string e'.last_seen_index ++ show_stamps sorted))))))),
      )
    ]

-- class xt_recent_table: its conn_packet base is never sent.
pub record XtRecentTable : Type 0 where
  pub name : Bytes
  pub entries : Map Bytes XtRecentEntry

-- xt_recent_table()
abbrev pub new_table : XtRecentTable
new_table = record { name = []; entries = [] }
