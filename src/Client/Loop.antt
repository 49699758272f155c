-- ===== src/Client/Loop.antt =====
-- The loop of a phase. Its messages are the list of those that arrive; a list that ends leaves the
-- loop waiting. `none` is an `assert`, an exit or a fault.
use colas.Common.{
  ℕ, zero, suc, ◌+◌, ◌<◌, ◌≡◌, refl, sym, ap, ◌∙◌, ◌-◌, Bool-cases, inl, inr, Bool, true, false,
  Option, none, some, ◌&&◌, List, [], ◌∷◌, map, length, take, keep, foldl, All, ◌>>=◌, leb,
  if◌then◌else◌, arith, Bytes, le→leb, lt→leb,
}

-- What the loop has when it breaks, or so far.
pub data Wait (S : Type 0) : Type 0 where
  done : S → Wait S
  waiting : S → Wait S

-- The end of a loop, with the messages that it has not taken.
abbrev pub Ended : Type 0 → Type 0
Ended S = Wait S × List (List Bytes)

abbrev pub go_on :
    {S : Type 0} → Wait S → List (List Bytes) → (S → Option (Ended S)) → Option (Ended S)
go_on (done s) msgs k = some (done s, msgs)
go_on (waiting s) msgs k = k s

-- A round takes a message, and says whether the loop breaks.
unfoldable pub receive_loop :
    {S : Type 0} → (S → List Bytes → Option (Wait S)) → S → List (List Bytes) → Option (Ended S)
receive_loop round s [] = some (waiting s, [])
receive_loop round s (msg ∷ msgs) = do
  w ← round s msg
  go_on w msgs (λ s'. receive_loop round s' msgs)

-- `responses >= majority` behind a counted reply.
abbrev pub counted : {A : Type 0} → ℕ → ℕ → A → Wait (ℕ × A)
counted threshold responses a =
    if leb threshold responses then done (responses, a) else waiting (responses, a)

-- What is left behind the first `k` that match.
unfoldable pub remaining : {X : Type 0} → (X → Bool) → ℕ → List X → List X
remaining test zero xs = xs
remaining test (suc k) [] = []
remaining test (suc k) (x ∷ xs) =
    let after = remaining test k xs in
    let rest = remaining test (suc k) xs in if test x then after else rest

pub All-remaining :
    {X : Type 0} (P : X → Type 0) (test : X → Bool) (k : ℕ) (xs : List X)
    → All P xs
    → All P (remaining test k xs)
unfolding remaining
All-remaining P test zero xs h = h
All-remaining P test (suc k) [] h = tt
All-remaining P test (suc k) (x ∷ xs) h =
    ground (arith, All-remaining P test k xs h.1, All-remaining P test (suc k) xs h.1)

module _ {A X : Type 0} (threshold : ℕ) (test : X → Bool) (step : A → X → A) (wire : X → List Bytes)
    (Fine : X → Type 0) (round : ℕ × A → List Bytes → Option (Wait (ℕ × A))) where
  -- A round that counts the messages that pass the test, and takes something from each.
  abbrev pub Counts : Type 0
  Counts =
      (n : ℕ) (a : A) (x : X)
      → Fine x
      → round (n, a) (wire x)
        ≡ some (if test x then counted threshold (n + 1) (step a x) else waiting (n, a))

-- All pass the test.
abbrev pub every : {X : Type 0} → (X → Bool) → List X → Bool
every test [] = true
every test (x ∷ xs) = test x && every test xs

module _ {A X : Type 0} (threshold : ℕ) (test room : X → Bool) (step : A → X → A)
    (wire : X → List Bytes) (Fine : X → Type 0)
    (round : ℕ × A → List Bytes → Option (Wait (ℕ × A))) where
  -- A round that counts the messages that pass the test, and takes something from each if there is
  -- room for it.
  abbrev pub CountsIf : Type 0
  CountsIf =
      (n : ℕ) (a : A) (x : X)
      → Fine x
      → round (n, a) (wire x) ≡ (
          if test x
          then (if room x then some (counted threshold (n + 1) (step a x)) else none)
          else some (waiting (n, a)))

  -- What such a loop comes to when `k` more messages are needed.
  abbrev pub outcome : ℕ → ℕ → A → List X → Wait (ℕ × A)
  outcome k n a xs =
      if leb k (length xs)
      then done (n + k, foldl step a (take k xs))
      else waiting (n + length xs, foldl step a xs)

  remaining-match :
      (k : ℕ) (x : X) (xs : List X)
      → test x ≡ true
      → remaining test (suc k) (x ∷ xs) ≡ remaining test k xs
  unfolding remaining
  remaining-match k x xs t = rw t refl

  remaining-skip :
      (k : ℕ) (x : X) (xs : List X)
      → test x ≡ false
      → remaining test (suc k) (x ∷ xs) ≡ remaining test (suc k) xs
  unfolding remaining
  remaining-skip k x xs t = rw t refl

  outcome-cons :
      (k n : ℕ) (a : A) (x : X) (xs : List X)
      → 0 < k
      → outcome (suc k) n a (x ∷ xs) ≡ outcome k (n + 1) (step a x) xs
  outcome-cons k n a x xs h = ground arith

  receive_loop_from :
      CountsIf
      → (k n : ℕ) (a : A) (xs : List X) → All Fine xs
      → n + suc k ≡ threshold
      → receive_loop round (n, a) (map wire xs) ≡ (
          if every room (take (suc k) (keep test xs))
          then some (outcome (suc k) n a (keep test xs), map wire (remaining test (suc k) xs))
          else none)
  unfolding receive_loop
  receive_loop_from counts k n a [] fine e = unfold remaining in ground arith
  receive_loop_from counts zero n a (x ∷ xs) fine e = elim (Bool-cases (test x)) [
    | inl t ↦ elim (Bool-cases (room x)) [
      | inl r ↦
          rw
            (
              counts n a x fine.0,
              t,
              r,
              le→leb threshold (n + 1) (omega arith),
              remaining-match 0 x xs t,
            )
            (unfold remaining in ground arith)
      | inr r ↦ rw (counts n a x fine.0, t, r) refl
    ]
    | inr t ↦
        rw (counts n a x fine.0, t, remaining-skip 0 x xs t)
          (receive_loop_from counts zero n a xs fine.1 e)
  ]
  receive_loop_from counts (suc k) n a (x ∷ xs) fine e = elim (Bool-cases (test x)) [
    | inl t ↦ elim (Bool-cases (room x)) [
      | inl r ↦
          rw
            (
              counts n a x fine.0,
              t,
              r,
              lt→leb threshold (n + 1) (omega arith),
              remaining-match (suc k) x xs t,
            )
            (receive_loop_from counts k (n + 1) (step a x) xs fine.1 (omega arith)
              ∙ ap
                  (λ w.
                    if every room (take (suc k) (keep test xs))
                    then some (w, map wire (remaining test (suc k) xs))
                    else none)
                  (sym (outcome-cons (suc k) n a x (keep test xs) (omega arith))))
      | inr r ↦ rw (counts n a x fine.0, t, r) refl
    ]
    | inr t ↦
        rw (counts n a x fine.0, t, remaining-skip (suc k) x xs t)
          (receive_loop_from counts (suc k) n a xs fine.1 e)
  ]

  -- The loop faults if one of the first messages that match, up to the threshold, has no room. Else
  -- it breaks at the message that reaches the threshold, with what those give; with fewer messages
  -- it goes on waiting.
  pub receive_loop-room :
      CountsIf
      → (a : A) (xs : List X) → All Fine xs
      → 0 < threshold
      → receive_loop round (0, a) (map wire xs) ≡ (
          if every room (take threshold (keep test xs))
          then some (outcome threshold 0 a (keep test xs), map wire (remaining test threshold xs))
          else none)
  receive_loop-room counts a xs fine h =
      let e : 0 + suc (threshold - 1) ≡ threshold = omega arith in
      rw (let f : suc (threshold - 1) ≡ threshold = omega arith in f) at
        (receive_loop_from counts (threshold - 1) 0 a xs fine e)

every_lem : {X : Type 0} (xs : List X) → every (λ x. true) xs ≡ true
every_lem [] = refl
every_lem (x ∷ xs) = every_lem xs

module _ {A X : Type 0} (threshold : ℕ) (test : X → Bool) (step : A → X → A) (wire : X → List Bytes)
    (Fine : X → Type 0) (round : ℕ × A → List Bytes → Option (Wait (ℕ × A))) where
  in_branches :
      (n : ℕ) (a : A) (x : X)
      → some (if test x then counted threshold (n + 1) (step a x) else waiting (n, a))
        ≡ (if test x then some (counted threshold (n + 1) (step a x)) else some (waiting (n, a)))
  in_branches n a x = elim (Bool-cases (test x)) [ inl t ↦ rw t refl | inr t ↦ rw t refl ]

  -- The loop breaks at the message that makes the matching ones reach the threshold, with what the
  -- first of them give; with fewer it goes on waiting.
  pub receive_loop_lem :
      Counts threshold test step wire Fine round
      → (a : A) (xs : List X) → All Fine xs
      → 0 < threshold
      → receive_loop round (0, a) (map wire xs)
        ≡ some (
          outcome threshold test (λ x. true) step wire Fine round threshold 0 a (keep test xs),
          map wire (remaining test threshold xs),
        )
  receive_loop_lem counts a xs fine h =
      receive_loop-room threshold test (λ x. true) step wire Fine round
        (λ n a x f. counts n a x f ∙ in_branches n a x) a xs fine h
      ∙ rw (every_lem (take threshold (keep test xs))) refl
