-- ===== src/Sync/Writes/Dump.antt =====
-- What base_sync::write_recent_all of src/sync/base_sync.cpp leaves in the files.
use ssyncd.Common.{
  ℕ, ◌≡◌, ◌≢◌, refl, sym, ap, ◌∙◌, Bool, true, false, List, [], ◌∷◌, ◌++◌, map, append_assoc,
  append-nil, arith, length, is_empty, All, if◌then◌else◌, Bool-cases, inl, inr,
}
use ssyncd.Common.Bytes.{Bytes}
use ssyncd.Common.Decimal.{IsDigit, to_string, to_string-IsDigit, tokens, tokens-append}
use ssyncd.Common.Map.{Map}
use ssyncd.XtRecent.Entry.{XtRecentEntry, sort}
use ssyncd.Sync.RecentData.{RecentData}
use ssyncd.Sync.Writes.{
  stamps_text, update_text, proc_path, Written, write_entries, flush, write_tables,
  write_recent_all,
}

-- The lines of the entries of a table.
abbrev pub entry_lines : Bytes → Map Bytes XtRecentEntry → List (Bytes × Bytes)
entry_lines tail [] = []
entry_lines tail ((ip, e) ∷ m) = (tail, update_text ip e) ∷ entry_lines tail m

-- For each table with entries: its flush and its lines.
abbrev pub dump : RecentData → List (Bytes × Bytes)
dump [] = []
dump ((name, t) ∷ d) =
    let rest = dump d in
    if is_empty t.entries
    then rest
    else (proc_path name, b'/' ∷ []) ∷ (entry_lines (proc_path name) t.entries ++ rest)

-- A part of the writes is missing, and none is when the result is true.
abbrev pub IsPart : Written Bool → List (Bytes × Bytes) → List (Bytes × Bytes) → Type 0
IsPart r done all =
    (missing : List (Bytes × Bytes)) × (r.0 ++ missing ≡ done ++ all) × (r.1 ≡ true → missing ≡ [])

failed : (done all : List (Bytes × Bytes)) → IsPart (done, false) done all
failed done all = (all, refl, λ h. ground (arith, h))

shift_lem :
    (r : Written Bool) (done more all : List (Bytes × Bytes))
    → IsPart r (done ++ more) all
    → IsPart r done (more ++ all)
shift_lem r done more all (missing, e, h) = (missing, e ∙ append_assoc done more all, h)

write_entries-IsPart :
    (opens writes : ℕ → Bool) (tail : Bytes) (m : Map Bytes XtRecentEntry)
    (done : List (Bytes × Bytes))
    → IsPart (write_entries opens writes tail m done) done (entry_lines tail m)
unfolding write_entries
write_entries-IsPart opens writes tail [] done = ([], refl, λ h. refl)
write_entries-IsPart opens writes tail ((ip, e) ∷ m) done =
    elim (Bool-cases (opens (length done))) [
      | inl o ↦ elim (Bool-cases (writes (length done))) [
        | inl w ↦
            let line : Bytes × Bytes = (tail, update_text ip e) in
            rw (o, w)
              (shift_lem (write_entries opens writes tail m (done ++ (line ∷ []))) done (line ∷ [])
                (entry_lines tail m)
                (write_entries-IsPart opens writes tail m (done ++ (line ∷ []))))
        | inr w ↦ rw (o, w) (failed done (entry_lines tail ((ip, e) ∷ m)))
      ]
      | inr o ↦ rw o (failed done (entry_lines tail ((ip, e) ∷ m)))
    ]

-- Writes that worked, before others that may not have.
then_lem :
    (first second : Written Bool) (done a b : List (Bytes × Bytes))
    → first.1 ≡ true
    → IsPart first done a
    → IsPart second first.0 b
    → IsPart second done (a ++ b)
then_lem first second done a b h (m, e, all) (m', e', all') =
    let whole : first.0 ≡ done ++ a =
      sym (append-nil first.0) ∙ ap (λ z. first.0 ++ z) (sym (all h)) ∙ e in
    (m', e' ∙ ap (λ z. z ++ b) whole ∙ append_assoc done a b, all')

-- A write that failed, before others that are not tried.
stop_lem :
    (first : Written Bool) (done a b : List (Bytes × Bytes))
    → first.1 ≡ false
    → IsPart first done a
    → IsPart first done (a ++ b)
stop_lem first done a b h (m, e, all) = (
  m ++ b,
  sym (append_assoc first.0 m b) ∙ ap (λ z. z ++ b) e ∙ append_assoc done a b,
  λ t. ground (arith, h, t),
)

flush-IsPart :
    (opens writes : ℕ → Bool) (tail : Bytes) (done : List (Bytes × Bytes))
    → IsPart (flush opens writes tail done) done ((tail, b'/' ∷ []) ∷ [])
unfolding flush
flush-IsPart opens writes tail done = elim (Bool-cases (opens (length done))) [
  | inl o ↦ elim (Bool-cases (writes (length done))) [
    | inl w ↦ rw (o, w) ([], append-nil (done ++ ((tail, b'/' ∷ []) ∷ [])), λ h. refl)
    | inr w ↦ rw (o, w) (failed done ((tail, b'/' ∷ []) ∷ []))
  ]
  | inr o ↦ rw o (failed done ((tail, b'/' ∷ []) ∷ []))
]

write_tables-IsPart :
    (opens writes : ℕ → Bool) (d : RecentData) (done : List (Bytes × Bytes))
    → IsPart (write_tables opens writes d done) done (dump d)
unfolding write_tables
write_tables-IsPart opens writes [] done = ([], refl, λ h. refl)
write_tables-IsPart opens writes ((name, t) ∷ d) done =
    let tail = proc_path name in
    let flushed = flush opens writes tail done in
    let filled = write_entries opens writes tail t.entries flushed.0 in
    let after = write_tables opens writes d filled.0 in
    let mark : List (Bytes × Bytes) = (tail, b'/' ∷ []) ∷ [] in
    let lines = entry_lines tail t.entries in
    let f = flush-IsPart opens writes tail done in
    let l = write_entries-IsPart opens writes tail t.entries flushed.0 in
    elim (Bool-cases (is_empty t.entries)) [
      | inl y ↦ rw y (write_tables-IsPart opens writes d done)
      | inr y ↦ elim (Bool-cases flushed.1) [
        | inr z ↦ rw (y, z) (stop_lem flushed done mark (lines ++ dump d) z f)
        | inl z ↦ elim (Bool-cases filled.1) [
          | inr q ↦
              rw (y, z, q)
                (then_lem flushed filled done mark (lines ++ dump d) z f
                  (stop_lem filled flushed.0 lines (dump d) q l))
          | inl q ↦
              rw (y, z, q)
                (then_lem flushed after done mark (lines ++ dump d) z f (
                  then_lem filled after flushed.0 lines (dump d) q l
                    (write_tables-IsPart opens writes d filled.0)))
        ]
      ]
    ]

-- Whatever system calls fail, the writes of write_recent_all are the first of these: for each table
-- with entries, a flush and then the line of each entry. They are all of them where it returns true.
pub write_recent_all-IsPart :
    (opens writes : ℕ → Bool) (d : RecentData)
    → IsPart (write_recent_all opens writes d) [] (dump d)
unfolding write_recent_all
write_recent_all-IsPart opens writes d = write_tables-IsPart opens writes d []

no_semicolon : (s : Bytes) → All IsDigit s → All (λ c. c ≢ b';') s
no_semicolon [] h = tt
no_semicolon (c ∷ s) (hc, hs) = (omega (arith, hc), no_semicolon s hs)

tokens-stamps_text : (ts : List ℕ) → tokens b';' (stamps_text ts) ≡ map to_string ts ++ ([] ∷ [])
unfolding stamps_text tokens
tokens-stamps_text [] = refl
tokens-stamps_text (t ∷ ts) =
    tokens-append b';' (to_string t) (stamps_text ts) (no_semicolon _ (to_string-IsDigit t))
    ∙ ap (λ z. to_string t ∷ z) (tokens-stamps_text ts)

-- The line of an entry splits at its semicolons into `*` and the address, the ttl, each timestamp in
-- ascending order, and nothing, where the address has no semicolon.
pub tokens-update_text :
    (ip : Bytes) (e : XtRecentEntry)
    → All (λ c. c ≢ b';') ip
    → tokens b';' (update_text ip e)
      ≡ (b'*' ∷ ip) ∷ to_string e.ttl ∷ (map to_string (sort e.timestamps) ++ ([] ∷ []))
unfolding update_text
tokens-update_text ip e h =
    let stamps = stamps_text (sort e.timestamps) in
    tokens-append b';' (b'*' ∷ ip) (to_string e.ttl ++ (b';' ∷ stamps)) (omega arith, h)
    ∙ ap (λ z. (b'*' ∷ ip) ∷ z)
        (tokens-append b';' (to_string e.ttl) stamps (no_semicolon _ (to_string-IsDigit e.ttl))
          ∙ ap (λ z. to_string e.ttl ∷ z) (tokens-stamps_text (sort e.timestamps)))
