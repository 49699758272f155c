-- ===== src/Sodaw/Shares.antt =====
-- The elements that reach the reader of src/sodaw/sodaw_reader.c, as stripes of what was written.
use colas.Common.{
  ℕ, ◌*◌, ◌<◌, ◌≡◌, refl, ap, ◌∙◌, Bool, true, Option, none, some, List, [], ◌∷◌, ◌++◌, map, keep,
  foldl, arith, Bytes, length, All, Apart, OneOf, Bool-cases, inl, inr, streq_iff,
}
use colas.Tag.{Tag}
use colas.Abd.Client.{Caller, types}
use colas.Abd.Ends.{to_all}
use colas.Abd.Phases.{matches}
use colas.Client.Polls.{items, Busy}
use colas.Client.Reply.{Answer, answer_frames}
use colas.Codec.{EncodeData, Kodo}
use colas.Codec.Stripes.{stripe, length-stripe}
use colas.Sodaw.Elements.{brings, elements_of, IsElement, next_received}
use colas.Sodaw.Gathered.{none_received}
use colas.Sodaw.Info.{Sized}
use colas.Sodaw.Reader.{Received, read_value_round}
use colas.Wire.Delivery.{
  read_value, read_complete, multicast, multicast_lem, algorithm_of, phase_of, body, arguments,
}
use colas.Wire.Send.{text, uint, send_multicast_servers}
use colas.Words
use colas.Zhash.{Zhash}

-- What the writes left: of each tag the blocks, and of each reply the number of its server.
pub record Written : Type 0 where
  pub blocks_of : Bytes → List Bytes
  pub index : Answer → ℕ

module _ (kodo : Kodo) (info : EncodeData) (w : Written) where
  -- A reply with the element that its server has of the value with the tag.
  pub record IsShare (a : Answer) : Type 0 where
    pub server_number : w.index a < info.n
    pub element :
        a.value
        ≡ stripe kodo info.algorithm info.k info.symbol_size info.n
            (w.index a)
            (w.blocks_of a.tag)
            0
    pub all_blocks : length (w.blocks_of a.tag) ≡ info.num_blocks
    pub sized : All (λ b. length b ≡ info.k * info.symbol_size) (w.blocks_of a.tag)

  -- No server sends two elements of one tag.
  abbrev pub OneEach : Caller → List Answer → Type 0
  OneEach c answers = (t : Bytes) → Apart (map w.index (keep (brings c t) answers))

All-keep :
    {A : Type 0} (P : A → Type 0) (test : A → Bool) (xs : List A)
    → All (λ x. test x ≡ true → P x) xs
    → All P (keep test xs)
All-keep P test [] h = tt
All-keep P test (x ∷ xs) h = elim (Bool-cases (test x)) [
  | inl e ↦ rw e (h.0 e, All-keep P test xs h.1)
  | inr e ↦ rw e (All-keep P test xs h.1)
]

pub keep-append :
    {A : Type 0} (test : A → Bool) (xs ys : List A)
    → keep test (xs ++ ys) ≡ keep test xs ++ keep test ys
keep-append test [] ys = refl
keep-append test (x ∷ xs) ys = ground (arith, keep-append test xs ys)

map_same :
    {A B : Type 0} (f g : A → B) (xs : List A) → All (λ x. f x ≡ g x) xs → map f xs ≡ map g xs
map_same f g [] h = refl
map_same f g (x ∷ xs) h = rw (h.0, map_same f g xs h.1) refl

map-map_lem :
    {A B C : Type 0} (f : A → B) (g : B → C) (xs : List A)
    → map (λ x. g (f x)) xs ≡ map g (map f xs)
map-map_lem f g [] = refl
map-map_lem f g (x ∷ xs) = rw (map-map_lem f g xs) refl

All-up :
    {A B : Type 0} (P : B → Type 0) (f : A → B) (xs : List A)
    → All (λ x. P (f x)) xs
    → All P (map f xs)
All-up P f [] h = tt
All-up P f (x ∷ xs) h = (h.0, All-up P f xs h.1)

module _ (c : Caller) where
  pub read_value_sent :
      (t : Bytes)
      → send_multicast_servers c.num_servers (types ++ Words.tag ∷ []) (
          text c.client_id
          ∷ text c.obj_name
          ∷ text Words.sodaw
          ∷ text Words.read_value
          ∷ uint c.op_num
          ∷ text t
          ∷ [])
        ≡ some (to_all c (read_value c.op_num t))
  unfolding multicast algorithm_of phase_of arguments body
  read_value_sent t = multicast_lem c.num_servers c.client_id c.obj_name (read_value c.op_num t)

  pub read_complete_sent :
      (t : Bytes)
      → send_multicast_servers c.num_servers (types ++ Words.tag ∷ []) (
          text c.client_id
          ∷ text c.obj_name
          ∷ text Words.sodaw
          ∷ text Words.read_complete
          ∷ uint c.op_num
          ∷ text t
          ∷ [])
        ≡ some (to_all c (read_complete c.op_num t))
  unfolding multicast algorithm_of phase_of arguments body
  read_complete_sent t =
      multicast_lem c.num_servers c.client_id c.obj_name (read_complete c.op_num t)

module _ (Z : Zhash) (kodo : Kodo) (c : Caller) (w : Written) (info : EncodeData)
    (read_tag : Tag) where
  -- The replies that a reader takes apart, with its polls, and what it holds behind them.
  abbrev pub Polled : List (Option Answer) → Type 0
  Polled es =
      Busy answer_frames (λ s. s.finished) (next_received Z c) (read_value_round Z c read_tag)
        (λ s a. IsElement c read_tag a) (none_received Z c) es

  abbrev pub held_of : List Answer → Received Z
  held_of answers = foldl (next_received Z c) (none_received Z c) answers

  pub Busy-All :
      (s : Received Z) (es : List (Option Answer))
      → Busy answer_frames
          (λ s. s.finished)
          (next_received Z c)
          (read_value_round Z c read_tag)
          (λ s a. IsElement c read_tag a)
          s
          es
      → All (IsElement c read_tag) (items es)
  unfolding items
  Busy-All s [] b = tt
  Busy-All s (none ∷ es) b = Busy-All s es b.1
  Busy-All s (some a ∷ es) b = (b.0, Busy-All (next_received Z c s a) es b.1)

  -- The elements of a tag come from replies that match.
  pub first_bringer :
      (t : Bytes) (ys : List Answer)
      → 0 < length (elements_of c t ys)
      → (a : Answer) × OneOf a ys × (brings c t a ≡ true)
  first_bringer t [] h = absurd (omega arith)
  first_bringer t (y ∷ ys) h = elim (Bool-cases (brings c t y)) [
    | inl e ↦ (y, inl refl, e)
    | inr e ↦ let (a, o, b) = first_bringer t ys (rw e at h) in (a, inr o, b)
  ]

  module _ (t : Bytes) (ys : List Answer)
      (shares : All (λ a. matches c Words.read_value a ≡ true → IsShare kodo info w a) ys) where
    abbrev pub stripe_of : ℕ → Bytes
    stripe_of i = stripe kodo info.algorithm info.k info.symbol_size info.n i (w.blocks_of t) 0

    abbrev pub numbers : List ℕ
    numbers = map w.index (keep (brings c t) ys)

    kept_shares : All (IsShare kodo info w) (keep (brings c t) ys)
    kept_shares = All-keep (IsShare kodo info w) (brings c t) ys (All-imp' ys shares)
      where
        All-imp' :
            (xs : List Answer)
            → All (λ a. matches c Words.read_value a ≡ true → IsShare kodo info w a) xs
            → All (λ a. brings c t a ≡ true → IsShare kodo info w a) xs
        All-imp' [] h = tt
        All-imp' (x ∷ xs) h = (λ e. h.0 (ground arith), All-imp' xs h.1)

    kept_tags : All (λ a. a.tag ≡ t) (keep (brings c t) ys)
    kept_tags = All-keep (λ a. a.tag ≡ t) (brings c t) ys (every ys)
      where
        every : (xs : List Answer) → All (λ a. brings c t a ≡ true → a.tag ≡ t) xs
        every [] = tt
        every (x ∷ xs) = (λ e. (streq_iff x.tag t).0 (ground arith), every xs)

    pub elements_lem : elements_of c t ys ≡ map stripe_of numbers
    elements_lem =
        map_same (λ a. a.value) (λ a. stripe_of (w.index a)) (keep (brings c t) ys)
          (both (keep (brings c t) ys) kept_shares kept_tags)
        ∙ map-map_lem w.index stripe_of (keep (brings c t) ys)
      where
        both :
            (xs : List Answer)
            → All (IsShare kodo info w) xs
            → All (λ a. a.tag ≡ t) xs
            → All (λ a. a.value ≡ stripe_of (w.index a)) xs
        both [] h k = tt
        both (x ∷ xs) h k = (
          h.0.element
              ∙ ap
                  (λ u.
                    stripe kodo info.algorithm info.k info.symbol_size info.n (w.index x)
                      (w.blocks_of u) 0)
                  k.0,
          both xs h.1 k.1,
        )

    pub numbers_below : All (λ i. i < info.n) numbers
    numbers_below =
        All-up (λ i. i < info.n) w.index (keep (brings c t) ys)
          (every (keep (brings c t) ys) kept_shares)
      where
        every : (xs : List Answer) → All (IsShare kodo info w) xs → All (λ a. w.index a < info.n) xs
        every [] h = tt
        every (x ∷ xs) h = (h.0.server_number, every xs h.1)

    pub stripes-Sized :
        length (w.blocks_of t) ≡ info.num_blocks
        → Sized
            (info.num_blocks * kodo.payload_size info.algorithm info.k info.symbol_size)
            (elements_of c t ys)
    stripes-Sized e = rw elements_lem (every numbers)
      where
        every :
            (is : List ℕ)
            → Sized
                (info.num_blocks * kodo.payload_size info.algorithm info.k info.symbol_size)
                (map stripe_of is)
        every [] = tt
        every (i ∷ is) = (
          length-stripe kodo info.algorithm info.k info.symbol_size info.n i (w.blocks_of t) 0
              ∙ ap (λ m. m * kodo.payload_size info.algorithm info.k info.symbol_size) e,
          every is,
        )
