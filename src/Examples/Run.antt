-- ===== src/Examples/Run.antt =====
-- A run of three servers of ABD: two take a write, and later two, one of them the same, are asked.
use colas.Common.{◌⊎◌, inl, Bytes, ℕ, ◌≡◌, ◌∙◌, ◌==◌, refl, arith, false, none, [], ◌∷◌, codes, All}
use colas.Tag.{Tag, init_tag, compare_tags}
use colas.Abd.Only.{AllWrites}
use colas.Store.Entry.{View, put_entry}
use colas.Abd.Quorum.{IsQuorum, Acked}
use colas.Abd.Server.{initialize_abd}
use colas.Abd.System.{
  System, Serves, Serves_lem, Run, here, then_serves, At, IsRequest, held, can_serve,
}
use colas.Abd.Replies.{reply_of}
use colas.Client.Majority.{majority}
use colas.Client.Reply.{answer_frames}
use colas.Wire.Delivery.{Request, write_value, get_tag, get_tag_value}
use colas.Zhash.Assoc.{assoc, find}
use colas.Examples.Data.{object, args, written_tag, blob, text, reads_text}

-- No server has seen a message.
abbrev pub start : System assoc args
start i = record { initialized = false; objects = [] }

abbrev pub empty : View
empty o = none

pub start-At : (i : ℕ) → At assoc args start i empty
unfolding initialize_abd find
start-At i o = tt

abbrev pub write : Request
write = write_value 1 text blob

pub write-IsRequest : IsRequest assoc args object write
write-IsRequest = ((written_tag, reads_text, omega arith, omega arith), omega arith, omega arith)

-- A server that has not been touched serves the write.
serves_write :
    (s : System assoc args) (i : ℕ)
    → s i ≡ start i
    → (s' : System assoc args) × Serves assoc args s i
        (codes "id")
        object
        write
        ((codes "id"
            ∷ answer_frames
                (reply_of (args i) object (held assoc args empty i object) write write-IsRequest.0))
          ∷ [])
        s'
serves_write s i e =
    can_serve assoc args s i (codes "id") (codes "w0") object write write-IsRequest empty
      (rw e (start-At i))

pub first :
    (s' : System assoc args) × Serves assoc args start 0
      (codes "id")
      object
      write
      ((codes "id"
          ∷ answer_frames
              (reply_of (args 0) object (held assoc args empty 0 object) write write-IsRequest.0))
        ∷ [])
      s'
first = serves_write start 0 refl

first_lem : (j : ℕ) → (0 == j) ≡ false → first.0 j ≡ start j
first_lem = (Serves_lem assoc args write-IsRequest empty first.1 (start-At 0)).2

pub second :
    (s' : System assoc args) × Serves assoc args first.0 1
      (codes "id")
      object
      write
      ((codes "id"
          ∷ answer_frames
              (reply_of (args 1) object (held assoc args empty 1 object) write write-IsRequest.0))
        ∷ [])
      s'
second = serves_write first.0 1 (first_lem 1 refl)

pub after : System assoc args
after = second.0

-- The entry that the write leaves.
abbrev pub wrote : View
wrote = put_entry empty object (record { key = text; tag = written_tag; value = blob })

pub second_lem : At assoc args after 1 wrote × ((j : ℕ) → (1 == j) ≡ false → after j ≡ first.0 j)
unfolding compare_tags after write-IsRequest
second_lem =
    let (sent, at, others) =
      Serves_lem assoc args write-IsRequest empty second.1 (rw (first_lem 1 refl) (start-At 1)) in
    (at, others)

pub untouched : after 2 ≡ start 2
unfolding after
untouched = second_lem.1 2 refl ∙ first_lem 2 refl

pub acked : All (Acked assoc args after object written_tag) (0 ∷ 1 ∷ [])
unfolding after
acked = (
  record {
    before = start;
    after = first.0;
    sender = codes "id";
    t = text;
    v = blob;
    op = 1;
    replies = _;
    view = empty;
    well_formed = start-At 0;
    fits = write-IsRequest;
    reads = reads_text;
    serves = first.1;
    later = then_serves here write-IsRequest second.1;
  },
  (
    record {
      before = first.0;
      after = second.0;
      sender = codes "id";
      t = text;
      v = blob;
      op = 1;
      replies = _;
      view = empty;
      well_formed = rw (first_lem 1 refl) (start-At 1);
      fits = write-IsRequest;
      reads = reads_text;
      serves = second.1;
      later = here;
    },
    tt,
  ),
)

pub majority-IsQuorum : IsQuorum 3 (0 ∷ 1 ∷ [])
unfolding majority
majority-IsQuorum = record {
  distinct = ((refl, tt), (tt, tt));
  below = (omega arith, (omega arith, tt));
  many = omega arith;
}

pub other-IsQuorum : IsQuorum 3 (1 ∷ 2 ∷ [])
unfolding majority
other-IsQuorum = record {
  distinct = ((refl, tt), (tt, tt));
  below = (omega arith, (omega arith, tt));
  many = omega arith;
}

pub ask-IsRequest : IsRequest assoc args object (get_tag 7)
ask-IsRequest = (tt, omega arith, omega arith)

pub read-IsRequest : IsRequest assoc args object (get_tag_value 7)
read-IsRequest = (tt, omega arith, omega arith)

pub first_At : At assoc args first.0 0 wrote
unfolding compare_tags write-IsRequest
first_At = (Serves_lem assoc args write-IsRequest empty first.1 (start-At 0)).1

pub to_after : Run assoc args first.0 after
unfolding after
to_after = then_serves here write-IsRequest second.1

-- The value of the write with its tag, or that of a new object with the first tag.
abbrev pub IsWritten : Tag → Bytes → Type 0
IsWritten tag v = ((tag ≡ written_tag) ⊎ (tag ≡ init_tag)) × (v ≡ blob)

pub run : Run assoc args start after
unfolding after
run = then_serves (then_serves here write-IsRequest first.1) write-IsRequest second.1

pub run_writes : AllWrites assoc args IsWritten start after run
unfolding run write-IsRequest
run_writes = ((tt, (inl refl, refl)), (inl refl, refl))
