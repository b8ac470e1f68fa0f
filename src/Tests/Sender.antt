-- ===== src/Tests/Sender.antt =====
-- host/src/files/mod.rs: a download of a file in memory.
use rcdesk.Common.{
  ℕ, zero, suc, Option, none, some, true, false, List, [], ◌∷◌, ◌++◌, ◌≡◌, refl, ap, arith, length,
  inl,
}
use rcdesk.Files.Names.{codes}
use rcdesk.Files.Receiver.{start, end_of}
use rcdesk.Files.Sender.{Out, message, binary, OpenFile, Poll, Weather, Ending, finished, send_one}
use rcdesk.Files.Laws.Sent.{IsComplete, send_one-IsComplete}

abbrev add_front : ℕ → Option (List ℕ × List ℕ) → Option (List ℕ × List ℕ)
add_front x none = none
add_front x (some (front, rest)) = some (x ∷ front, rest)

abbrev split : ℕ → List ℕ → Option (List ℕ × List ℕ)
split zero xs = some ([], xs)
split (suc n) [] = none
split (suc n) (x ∷ xs) = add_front x (split n xs)

abbrev answer_of : List ℕ → Option (List ℕ × List ℕ) → Option (List ℕ) × List ℕ
answer_of f none = (none, f)
answer_of f (some (front, rest)) = (some front, rest)

add_front_law :
    (x n : ℕ) (xs bytes : List ℕ) (parts : Option (List ℕ × List ℕ))
    → ((bytes : List ℕ)
        → (answer_of xs parts).0 ≡ some bytes
        → (length bytes ≡ n) × (xs ≡ bytes ++ (answer_of xs parts).1))
    → (answer_of (x ∷ xs) (add_front x parts)).0 ≡ some bytes
    → (length bytes ≡ suc n) × (x ∷ xs ≡ bytes ++ (answer_of (x ∷ xs) (add_front x parts)).1)
add_front_law x n xs bytes none law e = absurd (ground arith)
add_front_law x n xs bytes (some (front, rest)) law e =
    let same : x ∷ front ≡ bytes = ground arith in
    let (long, parts) = law front refl in rw⁻¹ same (omega arith, ap (λ t. x ∷ t) parts)

split_law :
    (n : ℕ) (xs bytes : List ℕ)
    → (answer_of xs (split n xs)).0 ≡ some bytes
    → (length bytes ≡ n) × (xs ≡ bytes ++ (answer_of xs (split n xs)).1)
split_law zero xs bytes e = let same : [] ≡ bytes = ground arith in rw⁻¹ same (refl, refl)
split_law (suc n) [] bytes e = absurd (ground arith)
split_law (suc n) (x ∷ xs) bytes e =
    add_front_law x n xs bytes (split n xs) (λ b h. split_law n xs b h) e

abbrev in_memory : OpenFile
in_memory = record {
  State = List ℕ;
  read_exact = λ f n. answer_of f (split n f);
  left = λ f. f;
  read_exact_law = λ f n bytes e. split_law n f bytes e;
}

-- Full at the first two looks.
abbrev draining : ℕ → Poll
draining zero = record { outstanding = 0; cancelled = false }
draining (suc k) = record { outstanding = 2_000_000; cancelled = false }

abbrev calm : Weather
calm = record {
  start_taken = true;
  abort_taken = true;
  end_taken = true;
  patience = 3;
  rounds = λ k. record { polls = draining; cancelled = false; taken = true };
}

abbrev photo : List ℕ
photo = 7 ∷ 8 ∷ 9 ∷ []

send_one-IsComplete_example :
    (outs : List Out) × (ending : Ending) × (send_one in_memory calm 5
        (codes "a.png")
        3
        none
        (some (3, photo))
      ≡ some (message (start 5 (codes "a.png") 3 none none none) ∷ outs, ending))
    × IsComplete in_memory photo 3 outs
send_one-IsComplete_example =
    send_one-IsComplete in_memory calm 5 (codes "a.png") 3 none 3 photo
      (λ i. (0, omega arith, inl (omega arith)))

photo_sent :
    send_one in_memory calm 5 (codes "a.png") 3 none (some (3, photo))
    ≡ some (
      message (start 5 (codes "a.png") 3 none none none) ∷ binary photo ∷ message (end_of 5) ∷ [],
      finished,
    )
unfolding send_one
photo_sent = refl
