-- ===== src/Sodaw/Gathered.antt =====
-- The loop of `SODAW_read_value` until it has enough elements of a tag, in
-- src/sodaw/sodaw_reader.c.
use mathlib.Core.List.{append_assoc, map-append}
use mathlib.Core.Path.{subst}
use colas.Common.{
  ◌<◌, ◌≡◌, refl, ap, sym, ◌∙◌, Bool, true, false, some, List, [], ◌∷◌, ◌++◌, keep, foldl,
  if◌then◌else◌, arith, Bytes, length, length-append, leb, streq, streq_refl, streq_iff, is_some,
  Bool-cases, Option-cases, ◌⊎◌, inl, inr, leb→le,
}
use colas.Abd.Client.{Caller}
use colas.Abd.Phases.{matches}
use colas.Client.Majority.{majority, majority_overlap}
use colas.Client.Reply.{Answer}
use colas.Sodaw.Reader.{Received, append_element, or_empty}
use colas.Words
use colas.Zhash.{Zhash}
use colas.Sodaw.Elements.{brings, elements_of, skip, take_it, leave_it, next_received}

module _ (Z : Zhash) (c : Caller) where
  -- Before it has enough: of each tag, the elements that came, and fewer than a majority of them.
  record Collects (s : Received Z) (before : List Answer) : Type 0 where
    unfinished : s.finished ≡ false
    listed : (t : Bytes) → or_empty (Z.lookup s.recv_dataset t) ≡ elements_of c t before
    few : (t : Bytes) → length (elements_of c t before) < majority c.num_servers

  -- When it has enough: all elements of the tag until then, which are just a majority.
  pub record Gathered (s : Received Z) (before : List Answer) : Type 0 where
    pub listed :
        Z.lookup s.recv_dataset s.decodeable_key ≡ some (elements_of c s.decodeable_key before)
    pub majority_of : length (elements_of c s.decodeable_key before) ≡ majority c.num_servers
    pub finished : s.finished ≡ true

  lookup-listed :
      (D : Z.Table (List Bytes)) (t : Bytes) (l : List Bytes) (j : Bytes)
      → Z.lookup (Z.update (if is_some (Z.lookup D t) then D else Z.insert D t []) t l) j
        ≡ (if streq t j then some l else Z.lookup D j)
  lookup-listed D t l j = elim (Option-cases (Z.lookup D t)) [
    | inl e ↦
        rw (e, Z.lookup-update (Z.insert D t []) t l j, Z.lookup-insert D t [] j) (ground arith)
    | inr (x, e) ↦ rw (e, Z.lookup-update D t l j) refl
  ]

  keep-append :
      (test : Answer → Bool) (xs : List Answer) (a : Answer)
      → keep test (xs ++ a ∷ []) ≡ (if test a then keep test xs ++ a ∷ [] else keep test xs)
  keep-append test [] a = refl
  keep-append test (x ∷ xs) a = ground (arith, keep-append test xs a)

  elements_of-append :
      (t : Bytes) (before : List Answer) (a : Answer)
      → elements_of c t (before ++ a ∷ [])
        ≡ (if brings c t a then elements_of c t before ++ a.value ∷ [] else elements_of c t before)
  elements_of-append t before a =
      rw (keep-append (brings c t) before a) (elim (Bool-cases (brings c t a)) [
        | inl e ↦ rw e (map-append (λ x. x.value) (keep (brings c t) before) (a ∷ []))
        | inr e ↦ rw e refl
      ])

  module _ (s : Received Z) (before : List Answer) (a : Answer) (k : Collects s before) where
    joined : List Bytes
    unfolding elements_of-append
    joined = or_empty (Z.lookup s.recv_dataset a.tag) ++ a.value ∷ []

    module _ (t : matches c Words.read_value a ≡ true) where
      joined_lem : joined ≡ elements_of c a.tag (before ++ a ∷ [])
      unfolding joined
      joined_lem =
          let same : brings c a.tag a ≡ true = rw (t, streq_refl a.tag) refl in
          rw (k.listed a.tag, elements_of-append a.tag before a, same) refl

      other_tags :
          (u : Bytes)
          → streq a.tag u ≡ false
          → elements_of c u (before ++ a ∷ []) ≡ elements_of c u before
      other_tags u f =
          let same : brings c u a ≡ false = rw (t, f) refl in
          rw (elements_of-append u before a, same) refl

      enough-Gathered :
          leb (majority c.num_servers) (length joined) ≡ true
          → Gathered (append_element Z (majority c.num_servers) s a.tag a.value) (before ++ a ∷ [])
      unfolding append_element joined
      enough-Gathered e =
          let longer = length-append (or_empty (Z.lookup s.recv_dataset a.tag)) (a.value ∷ []) in
          let most : length joined ≡ majority c.num_servers = omega (
            arith,
            leb→le (majority c.num_servers) (length joined) e,
            longer,
            ap (λ l. length l) (k.listed a.tag),
            k.few a.tag,
          ) in
          record {
            listed =
                rw
                  (
                    e,
                    lookup-listed s.recv_dataset a.tag joined a.tag,
                    streq_refl a.tag,
                    ← joined_lem,
                  )
                  refl;
            majority_of = rw (e, ← joined_lem) most;
            finished = e;
          }

      more-Collects :
          leb (majority c.num_servers) (length joined) ≡ false
          → Collects (append_element Z (majority c.num_servers) s a.tag a.value) (before ++ a ∷ [])
      unfolding append_element joined
      more-Collects e = record {
        unfinished = e;
        listed = λ u. elim (Bool-cases (streq a.tag u)) [
          | inl q ↦
              let same : a.tag ≡ u = (streq_iff a.tag u).0 q in
              rw (lookup-listed s.recv_dataset a.tag joined u, q)
                (joined_lem ∙ ap (λ w. elements_of c w (before ++ a ∷ [])) same)
          | inr q ↦ rw (lookup-listed s.recv_dataset a.tag joined u, q, other_tags u q) (k.listed u)
        ];
        few = λ u. elim (Bool-cases (streq a.tag u)) [
          | inl q ↦
              let same : a.tag ≡ u = (streq_iff a.tag u).0 q in
              rw (← same, ← joined_lem) (ground arith)
          | inr q ↦ rw (other_tags u q) (k.few u)
        ];
      }

    other-Collects : matches c Words.read_value a ≡ false → Collects s (before ++ a ∷ [])
    other-Collects t = record {
      unfinished = k.unfinished;
      listed = λ u.
          let same : brings c u a ≡ false = rw t refl in
          rw (elements_of-append u before a, same) (k.listed u);
      few = λ u.
          let same : brings c u a ≡ false = rw t refl in
          rw (elements_of-append u before a, same) (k.few u);
    }

    Collects-next :
        Collects (next_received Z c s a) (before ++ a ∷ [])
        ⊎ Gathered (next_received Z c s a) (before ++ a ∷ [])
    Collects-next =
        let matched = matches c Words.read_value a in
        let more = append_element Z (majority c.num_servers) s a.tag a.value in
        elim (Bool-cases matched) [
          | inl t ↦
              let moves : next_received Z c s a ≡ more =
                take_it s.finished matched more s k.unfinished t in
              elim (Bool-cases (leb (majority c.num_servers) (length joined))) [
                | inl e ↦
                    inr
                      (subst (λ w. Gathered w (before ++ a ∷ [])) (sym moves) (enough-Gathered t e))
                | inr e ↦
                    inl (subst (λ w. Collects w (before ++ a ∷ [])) (sym moves) (more-Collects t e))
              ]
          | inr t ↦
              let moves : next_received Z c s a ≡ s =
                leave_it s.finished matched more s k.unfinished t in
              inl (subst (λ w. Collects w (before ++ a ∷ [])) (sym moves) (other-Collects t))
        ]

  stays :
      (s : Received Z) (before : List Answer) (xs : List Answer)
      → s.finished ≡ true
      → foldl (next_received Z c) s xs ≡ s
  stays s before [] f = refl
  stays s before (x ∷ xs) f =
      ap (λ w. foldl (next_received Z c) w xs)
        (skip s.finished (matches c Words.read_value x)
          (append_element Z (majority c.num_servers) s x.tag x.value) s f)
      ∙ stays s before xs f

  -- From the start to the poll at which the loop ends with enough.
  gathers :
      (s : Received Z) (before xs : List Answer)
      → Collects s before
      → (foldl (next_received Z c) s xs).finished ≡ true
      → (ys : List Answer) × (zs : List Answer) × (before ++ xs ≡ ys ++ zs)
        × Gathered (foldl (next_received Z c) s xs) ys
  gathers s before [] k f = absurd (cc (f, k.unfinished))
  gathers s before (x ∷ xs) k f = elim (Collects-next s before x k) [
    | inl k' ↦
        let (ys, zs, same, g) = gathers (next_received Z c s x) (before ++ x ∷ []) xs k' f in
        (ys, zs, sym (append_assoc before (x ∷ []) xs) ∙ same, g)
    | inr g ↦
        let same = stays (next_received Z c s x) before xs g.finished in
        (before ++ x ∷ [], xs, sym (append_assoc before (x ∷ []) xs), rw same g)
  ]

  abbrev pub none_received : Received Z
  none_received = record {
    recv_dataset = Z.new (List Bytes);
    decodeable_key = [];
    finished = false;
  }

  pub gathered_lem :
      (xs : List Answer)
      → (foldl (next_received Z c) none_received xs).finished ≡ true
      → (ys : List Answer) × (zs : List Answer) × (xs ≡ ys ++ zs)
        × Gathered (foldl (next_received Z c) none_received xs) ys
  gathered_lem xs f =
      gathers none_received [] xs
        (record {
          unfinished = refl;
          listed = λ t. rw (Z.lookup-new (List Bytes) t) refl;
          few = λ t. (majority_overlap c.num_servers).1;
        })
        f
