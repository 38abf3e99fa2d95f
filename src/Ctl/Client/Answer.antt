-- ===== src/Ctl/Client/Answer.antt =====
-- What src/ctl_interface/ctl_controller.cpp sends and shows.
use ssyncd.Common.{
  ℕ, zero, suc, ◌+◌, ◌≤◌, ◌≡◌, ◌≢◌, refl, ap, ◌∙◌, true, none, some, List, [], ◌∷◌, ◌++◌, arith,
  length, take, drop, ltb, Bool-cases, inl, inr, append_assoc, All,
}
use ssyncd.Common.Bytes.{Bytes}
use ssyncd.Helpers.Utils.{c_str}
use ssyncd.Connection.Send.{SendAnswer, took, would_block, send_error, Outcome, returned}
use ssyncd.Connection.Send.Whole.{take-drop-append}
use ssyncd.Ctl.Client.{send_while, Reply, recv_error, end_of_stream, stored, collect}

-- What is left over is missing, and nothing is when the loop returns true.
abbrev pub IsPrefix : Bytes → Outcome × Bytes → Type 0
IsPrefix bytes r =
    (missing : Bytes) × (r.1 ++ missing ≡ bytes) × (r.0 ≡ returned true → missing ≡ [])

drop_all : (n : ℕ) (xs : Bytes) → length xs ≤ n → drop n xs ≡ []
drop_all zero [] h = refl
drop_all zero (x ∷ xs) h = absurd (omega arith)
drop_all (suc n) [] h = refl
drop_all (suc n) (x ∷ xs) h = drop_all n xs (omega arith)

pub send_while-IsPrefix :
    (bytes : Bytes) (sent : ℕ) (answers : List SendAnswer)
    → IsPrefix (drop sent bytes) (send_while bytes sent answers)
unfolding send_while
send_while-IsPrefix bytes sent [] = elim (Bool-cases (ltb sent (length bytes))) [
  | inl y ↦ rw y (drop sent bytes, refl, λ e. cc)
  | inr n ↦ rw n (drop sent bytes, refl, λ e. drop_all sent bytes (ground arith))
]
send_while-IsPrefix bytes sent (took n ∷ answers) = elim (Bool-cases (ltb sent (length bytes))) [
  | inl y ↦
      let (missing, e, all) = send_while-IsPrefix bytes (sent + n) answers in
      rw y (
        missing,
        append_assoc (take n (drop sent bytes)) _ missing
            ∙ ap (λ z. take n (drop sent bytes) ++ z) e
            ∙ take-drop-append sent n bytes,
        all,
      )
  | inr m ↦ rw m (drop sent bytes, refl, λ e. drop_all sent bytes (ground arith))
]
send_while-IsPrefix bytes sent (would_block ∷ answers) =
    elim (Bool-cases (ltb sent (length bytes))) [
      | inl y ↦ rw y (drop sent bytes, refl, λ e. cc)
      | inr n ↦ rw n (drop sent bytes, refl, λ e. drop_all sent bytes (ground arith))
    ]
send_while-IsPrefix bytes sent (send_error ∷ answers) =
    elim (Bool-cases (ltb sent (length bytes))) [
      | inl y ↦ rw y (drop sent bytes, refl, λ e. cc)
      | inr n ↦ rw n (drop sent bytes, refl, λ e. drop_all sent bytes (ground arith))
    ]

-- The replies that store these chunks, each followed by a NUL in the buffer.
pub answer_of : List (Bytes × Bytes) → List Reply
answer_of [] = end_of_stream ∷ []
answer_of ((chunk, memory) ∷ rest) = stored chunk (0 ∷ memory) ∷ answer_of rest

pub texts : List (Bytes × Bytes) → Bytes
texts [] = []
texts ((chunk, memory) ∷ rest) = chunk ++ texts rest

c_str-append : (s memory : Bytes) → All (λ c. c ≢ 0) s → c_str (s ++ (0 ∷ memory)) ≡ s
unfolding c_str
c_str-append [] memory h = refl
c_str-append (c ∷ s) memory (hc, hs) = ground (arith, c_str-append s memory hs)

-- Where the answer of the daemon comes in any chunks without a NUL, and the buffer happens to hold a
-- NUL behind each of them, the control program shows the whole answer and ends with the stream.
pub collect-answer_of :
    (chunks : List (Bytes × Bytes))
    → All (λ x. All (λ c. c ≢ 0) x.0) chunks
    → collect (answer_of chunks) ≡ some (texts chunks)
unfolding collect answer_of texts
collect-answer_of [] h = refl
collect-answer_of ((chunk, memory) ∷ rest) (h, hs) =
    rw (collect-answer_of rest hs, c_str-append chunk memory h) refl

-- A reply that does not end the stream.
abbrev pub IsOpen : Reply → Type 0
IsOpen end_of_stream = ⊥
IsOpen _ = Unit

-- Nothing but the end of the stream ends the loop: where every recv fails, it runs for ever.
pub collect-IsOpen : (replies : List Reply) → All IsOpen replies → collect replies ≡ none
unfolding collect
collect-IsOpen [] h = refl
collect-IsOpen (recv_error memory ∷ rest) (h, hs) = rw (collect-IsOpen rest hs) refl
collect-IsOpen (end_of_stream ∷ rest) (h, hs) = absurd h
collect-IsOpen (stored chunk memory ∷ rest) (h, hs) = rw (collect-IsOpen rest hs) refl
