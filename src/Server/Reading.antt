-- ===== src/Server/Reading.antt =====
-- What goes over the socket: the bytes that are written, and the payload that is read.
use mathlib.Core.List.{append_assoc, append-nil}
use ee_eq_cli.Common.{
  ℕ, zero, suc, arith, ltb, ◌≤◌, false, List, [], ◌∷◌, ◌++◌, length, ◌≡◌, refl, ap, ◌∙◌, sym, subst,
  if_cases,
}
use ee_eq_cli.Server.{
  Sent, took, interrupted, refused, Written, all_written, not_written, writing, after, write_all,
  drop, take, Round, Received, payload, failed, open_, read_payload, max_payload, deadline_passed,
  poll_interrupted, poll_timed_out, signalled, nothing, read_interrupted, end, poll_failed,
  read_failed, chunk,
}

take-drop : {A : Type 0} (n : ℕ) (xs : List A) → take n xs ++ drop n xs ≡ xs
take-drop n [] = refl
take-drop zero (x ∷ xs) = refl
take-drop (suc n) (x ∷ xs) = ap (λ l. x ∷ l) (take-drop n xs)

-- What has gone out is the beginning of the text, and all of it if the loop succeeds.
abbrev pub IsPart : List ℕ → Written → Type 0
IsPart text (all_written xs) = xs ≡ text
IsPart text (not_written xs e) = (rest : List ℕ) × (xs ++ rest ≡ text)
IsPart text (writing xs) = (rest : List ℕ) × (xs ++ rest ≡ text)

after-IsPart : (xs ys : List ℕ) (w : Written) → IsPart ys w → IsPart (xs ++ ys) (after xs w)
after-IsPart xs ys (all_written zs) h = ap (λ l. xs ++ l) h
after-IsPart xs ys (not_written zs e) (rest, h) =
    (rest, append_assoc xs zs rest ∙ ap (λ l. xs ++ l) h)
after-IsPart xs ys (writing zs) (rest, h) = (rest, append_assoc xs zs rest ∙ ap (λ l. xs ++ l) h)

-- Whatever `send` answers, the bytes that have gone out are the text's first ones in their order,
-- and `write_all` succeeds only when they are all of it.
pub write_all-IsPart : (answers : List Sent) (text : List ℕ) → IsPart text (write_all answers text)
write_all-IsPart answers [] = refl
write_all-IsPart [] (b ∷ bs) = (b ∷ bs, refl)
write_all-IsPart (took n ∷ answers) (b ∷ bs) =
    subst (λ text. IsPart text (write_all (took n ∷ answers) (b ∷ bs))) (take-drop n (b ∷ bs))
      (after-IsPart (take n (b ∷ bs)) (drop n (b ∷ bs)) (write_all answers (drop n (b ∷ bs)))
        (write_all-IsPart answers (drop n (b ∷ bs))))
write_all-IsPart (interrupted ∷ answers) (b ∷ bs) = write_all-IsPart answers (b ∷ bs)
write_all-IsPart (refused e ∷ answers) (b ∷ bs) = (b ∷ bs, refl)

-- What the client sends before it ends its side.
abbrev pub gathered : List Round → List ℕ
gathered [] = []
gathered (chunk xs ∷ rounds) = xs ++ gathered rounds
gathered (end ∷ rounds) = []
gathered (_ ∷ rounds) = gathered rounds

-- A request that was read to its end.
abbrev IsWhole : List Round → List ℕ → Received → Type 0
IsWhole rounds bytes (payload text) =
    (text ≡ bytes ++ gathered rounds) × (length bytes ≤ max_payload → length text ≤ max_payload)
IsWhole rounds bytes (failed e) = Unit
IsWhole rounds bytes (open_ text) = text ≡ bytes ++ gathered rounds

IsWhole-chunk :
    (xs bytes : List ℕ) (rounds : List Round) (r : Received)
    → ltb max_payload (length (bytes ++ xs)) ≡ false
    → IsWhole rounds (bytes ++ xs) r
    → IsWhole (chunk xs ∷ rounds) bytes r
IsWhole-chunk xs bytes rounds (payload text) short (h, k) =
    (h ∙ append_assoc bytes xs (gathered rounds), λ _. k (ground (arith, short)))
IsWhole-chunk xs bytes rounds (failed e) short h = tt
IsWhole-chunk xs bytes rounds (open_ text) short h = h ∙ append_assoc bytes xs (gathered rounds)

read_payload-IsWhole :
    (rounds : List Round) (bytes : List ℕ) → IsWhole rounds bytes (read_payload rounds bytes)
unfolding read_payload
read_payload-IsWhole [] bytes = sym (append-nil bytes)
read_payload-IsWhole (deadline_passed ∷ rounds) bytes = tt
read_payload-IsWhole (poll_interrupted ∷ rounds) bytes = read_payload-IsWhole rounds bytes
read_payload-IsWhole (poll_timed_out ∷ rounds) bytes = tt
read_payload-IsWhole (signalled ∷ rounds) bytes = tt
read_payload-IsWhole (nothing ∷ rounds) bytes = read_payload-IsWhole rounds bytes
read_payload-IsWhole (read_interrupted ∷ rounds) bytes = read_payload-IsWhole rounds bytes
read_payload-IsWhole (end ∷ rounds) bytes = (sym (append-nil bytes), λ h. h)
read_payload-IsWhole (poll_failed e ∷ rounds) bytes = tt
read_payload-IsWhole (read_failed e ∷ rounds) bytes = tt
read_payload-IsWhole (chunk xs ∷ rounds) bytes =
    if_cases {A = Received} (IsWhole (chunk xs ∷ rounds) bytes)
      (ltb max_payload (length (bytes ++ xs))) (λ _. tt)
      (λ short.
        IsWhole-chunk xs bytes rounds (read_payload rounds (bytes ++ xs)) short
          (read_payload-IsWhole rounds (bytes ++ xs)))

-- A payload that is read is what the client sent until it ended its side, and is no longer than
-- 64 KiB.
pub read_payload-gathered :
    (rounds : List Round) {text : List ℕ}
    → read_payload rounds [] ≡ payload text
    → (text ≡ gathered rounds) × (length text ≤ max_payload)
read_payload-gathered rounds {text} h =
    let w = subst (IsWhole rounds []) h (read_payload-IsWhole rounds []) in
    (w.0, w.1 (ground arith))
