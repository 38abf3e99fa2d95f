-- ===== src/Connection/Send/Whole.antt =====
-- The send loops of src/connection/connection.cpp and src/http/http_sync.cpp send whole packets.
use ssyncd.Common.{
  ℕ, zero, suc, ◌+◌, ◌-◌, ◌≤◌, ◌<◌, ◌≡◌, refl, ap, ◌∙◌, true, List, [], ◌∷◌, ◌++◌, arith, length,
  take, drop, ◌==◌, Bool-cases, inl, inr, ==_iff, append_assoc, append-nil,
}
use ssyncd.Common.Bytes.{Bytes}
use ssyncd.Connection.Send.{
  SendAnswer, took, would_block, send_error, Outcome, returned, send_loop, handle_send,
}

-- The answers of a socket that fails never and takes no more than it is given.
abbrev pub IsWilling : Bytes → ℕ → List SendAnswer → Type 0
IsWilling to_send sent [] = Unit
IsWilling to_send sent (would_block ∷ answers) = IsWilling to_send sent answers
IsWilling to_send sent (send_error ∷ answers) = ⊥
IsWilling to_send sent (took n ∷ answers) =
    (sent + n ≤ length to_send) × IsWilling to_send (sent + n) answers

-- How many answers take at least a byte.
abbrev pub takes : List SendAnswer → ℕ
takes [] = 0
takes (would_block ∷ answers) = takes answers
takes (send_error ∷ answers) = takes answers
takes (took zero ∷ answers) = takes answers
takes (took (suc n) ∷ answers) = suc (takes answers)

take-drop_all : (sent : ℕ) (xs : Bytes) → take (length xs - sent) (drop sent xs) ≡ drop sent xs
take-drop_all zero [] = refl
take-drop_all zero (x ∷ xs) = ground (arith, take-drop_all zero xs)
take-drop_all (suc sent) [] = ground arith
take-drop_all (suc sent) (x ∷ xs) = ground (arith, take-drop_all sent xs)

drop-nil : (n : ℕ) → drop {A = ℕ} n [] ≡ []
drop-nil zero = refl
drop-nil (suc n) = refl

take-nil : (n : ℕ) → take {A = ℕ} n [] ≡ []
take-nil zero = refl
take-nil (suc n) = refl

suc_add_lem : (m n : ℕ) → suc m + n ≡ suc (m + n)
suc_add_lem m n = omega arith

pub take-drop-append :
    (sent n : ℕ) (xs : Bytes) → take n (drop sent xs) ++ drop (sent + n) xs ≡ drop sent xs
take-drop-append zero zero xs = ground arith
take-drop-append zero (suc n) [] = ground arith
take-drop-append zero (suc n) (x ∷ xs) = ground (arith, take-drop-append zero n xs)
take-drop-append (suc sent) n [] = ground (arith, take-nil n, drop-nil (suc sent + n))
take-drop-append (suc sent) n (x ∷ xs) =
    ap (λ k. take n (drop sent xs) ++ drop k (x ∷ xs)) (suc_add_lem sent n)
    ∙ take-drop-append sent n xs

taken_lem :
    (sent n : ℕ) (xs : Bytes) → n ≡ length xs - sent → take n (drop sent xs) ++ [] ≡ drop sent xs
taken_lem sent n xs e =
    append-nil (take n (drop sent xs)) ∙ ap (λ z. take z (drop sent xs)) e ∙ take-drop_all sent xs

-- What is left over is missing, and nothing is when the loop returns true.
abbrev Missing : Bytes → ℕ → Outcome × Bytes → Type 0
Missing to_send sent r =
    (missing : Bytes) × (r.1 ++ missing ≡ drop sent to_send) × (r.0 ≡ returned true → missing ≡ [])

send_loop-Missing :
    (to_send : Bytes) (sent : ℕ) (answers : List SendAnswer)
    → Missing to_send sent (send_loop to_send sent answers)
unfolding send_loop
send_loop-Missing to_send sent [] = (drop sent to_send, refl, λ h. ground (arith, h))
send_loop-Missing to_send sent (would_block ∷ answers) = send_loop-Missing to_send sent answers
send_loop-Missing to_send sent (send_error ∷ answers) =
    (drop sent to_send, refl, λ h. ground (arith, h))
send_loop-Missing to_send sent (took n ∷ answers) =
    let (missing, e, all) = send_loop-Missing to_send (sent + n) answers in
    elim (Bool-cases (n == length to_send - sent)) [
      | inl y ↦
          rw y ([], taken_lem sent n to_send ((==_iff n (length to_send - sent)).0 y), λ h. refl)
      | inr y ↦ rw y (
        missing,
        append_assoc (take n (drop sent to_send)) (send_loop to_send (sent + n) answers).1 missing
            ∙ ap (λ z. take n (drop sent to_send) ++ z) e
            ∙ take-drop-append sent n to_send,
        all,
      )
    ]

send_loop_returns :
    (to_send : Bytes) (sent : ℕ) (answers : List SendAnswer)
    → IsWilling to_send sent answers
    → sent < length to_send
    → length to_send ≤ sent + takes answers
    → (send_loop to_send sent answers).0 ≡ returned true
unfolding send_loop
send_loop_returns to_send sent [] w l e = ground arith
send_loop_returns to_send sent (would_block ∷ answers) w l e =
    send_loop_returns to_send sent answers w l e
send_loop_returns to_send sent (send_error ∷ answers) w l e = elim w [ ]
send_loop_returns to_send sent (took zero ∷ answers) (fits, w) l e =
    ground (arith, ==_iff 0 (length to_send - sent), send_loop_returns to_send (sent + 0) answers w)
send_loop_returns to_send sent (took (suc n) ∷ answers) (fits, w) l e = ground (
  arith,
  ==_iff (suc n) (length to_send - sent),
  send_loop_returns to_send (sent + suc n) answers w,
)

-- The bytes that the socket takes are a prefix of what handle_send is to send, whatever the socket
-- answers, and they are all of it where handle_send returns true.
pub handle_send_lem :
    (to_send : Bytes) (answers : List SendAnswer)
    → (missing : Bytes) × ((handle_send to_send answers).1 ++ missing ≡ to_send)
      × ((handle_send to_send answers).0 ≡ returned true → missing ≡ [])
unfolding handle_send
handle_send_lem to_send answers = send_loop-Missing to_send 0 answers

-- handle_send returns true as soon as a socket that does not fail, and takes no more than it is
-- given, has taken something as many times as there are bytes; in between it may have answered
-- EWOULDBLOCK or have taken nothing any number of times.
pub handle_send-returns :
    (to_send : Bytes) (answers : List SendAnswer)
    → IsWilling to_send 0 answers
    → 0 < length to_send
    → length to_send ≤ takes answers
    → (handle_send to_send answers).0 ≡ returned true
unfolding handle_send
handle_send-returns to_send answers w l e =
    send_loop_returns to_send 0 answers w l (omega (arith, e))
