-- ===== src/XtRecent/Proc/Row.antt =====
-- A row of /proc/net/xt_recent through src/xt_recent/xt_recent_proc.cpp.
use ssyncd.Common.{
  ℕ, ◌^◌, ◌<◌, ◌≡◌, ◌≢◌, ◌∙◌, Option, some, List, [], ◌∷◌, ◌++◌, append-nil, arith, All, ◌==◌,
  if◌then◌else◌,
}
use ssyncd.Common.Bytes.{Bytes}
use ssyncd.Common.Decimal.{
  IsDigit, to_string, to_string-IsDigit, stoul, stoi-to_string, stoul-to_string, stoul-space,
  tokens, tokens_self, tokens-append,
}
use ssyncd.Helpers.Utils.{c_str_self, ipv4, All-append}
use ssyncd.XtRecent.Proc.{
  src_pattern, ttl_pattern, last_seen_pattern, oldest_pkt_pattern, timestamps_pattern, natural,
  parse_stamps, parse_data, parse_file_row,
}

-- The timestamps that are not 0.
abbrev pub nonzero_stamps : List ℕ → List ℕ
nonzero_stamps [] = []
nonzero_stamps (t ∷ ts) = let rest = nonzero_stamps ts in if t == 0 then rest else t ∷ rest

-- The timestamps of a row after the first, as the kernel prints them: ", 1, 2, 3".
abbrev pub more_stamps : List ℕ → Bytes
more_stamps [] = []
more_stamps (t ∷ ts) = b',' ∷ b' ' ∷ (to_string t ++ more_stamps ts)

no_comma : (s : Bytes) → All IsDigit s → All (λ c. c ≢ b',') s
no_comma [] h = tt
no_comma (c ∷ s) (hc, hs) = (omega (arith, hc), no_comma s hs)

no_nul : (s : Bytes) → All IsDigit s → All (λ c. c ≢ 0) s
no_nul [] h = tt
no_nul (c ∷ s) (hc, hs) = (omega (arith, hc), no_nul s hs)

more_no_nul : (ts : List ℕ) → All (λ c. c ≢ 0) (more_stamps ts)
more_no_nul [] = tt
more_no_nul (t ∷ ts) = (
  omega arith,
  (omega arith, All-append _ (to_string t) _ (no_nul _ (to_string-IsDigit t)) (more_no_nul ts)),
)

parse_more :
    (token : Bytes) (n : ℕ) (ts : List ℕ)
    → All (λ c. c ≢ b',') token
    → stoul token ≡ some n
    → All (λ t. t < 2 ^ 64) ts
    → parse_stamps (tokens b',' (token ++ more_stamps ts)) ≡ some (nonzero_stamps (n ∷ ts))
unfolding parse_stamps
parse_more token n [] h e b = ground (arith, append-nil token, tokens_self b',' token h, e)
parse_more token n (t ∷ ts) h e (bt, b) =
    let rest =
      parse_more (b' ' ∷ to_string t) t ts (omega arith, no_comma _ (to_string-IsDigit t))
        (stoul-space (to_string t) ∙ stoul-to_string t bt) b in
    ground (arith, tokens-append b',' token (b' ' ∷ (to_string t ++ more_stamps ts)) h, e, rest)

-- Where the patterns of regs_patterns match a row that shows an address, a ttl, a time, an index and
-- at least one timestamp in decimal, `parse_file_row` reads those numbers back, and all the timestamps
-- except zeros, in their order.
pub parse_file_row_lem :
    (partial_match : Bytes → Bytes → Option Bytes) (row src : Bytes) (ttl seen index t : ℕ)
    (ts : List ℕ)
    → partial_match row src_pattern ≡ some src
    → partial_match row ttl_pattern ≡ some (to_string ttl)
    → partial_match row last_seen_pattern ≡ some (to_string seen)
    → partial_match row oldest_pkt_pattern ≡ some (to_string index)
    → partial_match row timestamps_pattern ≡ some (to_string t ++ more_stamps ts)
    → ttl < 2 ^ 31
    → seen < 2 ^ 64
    → index < 2 ^ 31
    → All (λ x. x < 2 ^ 64) (t ∷ ts)
    → parse_file_row partial_match row
      ≡ some (record {
        src_ip = src;
        ttl = ttl;
        last_seen = seen;
        last_seen_index = index;
        ip_family = ipv4;
        timestamps = nonzero_stamps (t ∷ ts);
      })
unfolding parse_file_row parse_data natural
parse_file_row_lem m row src ttl seen index t ts hsrc httl hseen hindex hts bttl bseen bindex
      (bt, b) =
    ground (
      arith,
      hsrc,
      httl,
      hseen,
      hindex,
      hts,
      stoi-to_string ttl bttl,
      stoi-to_string index bindex,
      stoul-to_string seen bseen,
      c_str_self (to_string t ++ more_stamps ts)
          (All-append _ (to_string t) _ (no_nul _ (to_string-IsDigit t)) (more_no_nul ts)),
      parse_more (to_string t) t ts (no_comma _ (to_string-IsDigit t)) (stoul-to_string t bt) b,
    )
