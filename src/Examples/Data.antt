-- ===== src/Examples/Data.antt =====
-- A writer of an object on three servers, and replies that reach it.
use colas.Common.{
  ℕ, zero, suc, ◌+◌, ◌≡◌, refl, ◌<◌, arith, Option, some, List, [], ◌∷◌, Bytes, codes, All, length,
}
use colas.Common.Int.{pos}
use colas.Tag.{Tag, init_tag}
use colas.Tag.Decimal.{atoi, scan}
use colas.Tag.Text.{string_to_tag}
use colas.Abd.Client.{Caller}
use colas.Abd.Tags.{InRange}
use colas.Abd.Server.{ServerArgs}
use colas.Client.Reply.{Answer, Kind}
use colas.Client.Print.{IsText, IsAnswer}

-- `n` bytes
abbrev pub bytes : ℕ → Bytes
bytes zero = []
bytes (suc n) = b'v' ∷ bytes n

abbrev pub blob : Bytes
blob = bytes 120

-- Memory that may be read behind the struct of a frame.
abbrev pub memory_of : Bytes → Option Bytes
memory_of v = some (bytes (length v))

-- The bytes of the smallest block of glibc's allocator on 64 bits.
abbrev pub smallest_block : ℕ
smallest_block = 24

abbrev pub object : Bytes
object = codes "obj"

abbrev pub args : ℕ → ServerArgs
args i = record { server_id = b's' ∷ (b'0' + i) ∷ []; init_data = blob }

abbrev pub caller : Caller
caller = record { obj_name = object; client_id = codes "w1"; op_num = 7; num_servers = 3 }

abbrev pub written_tag : Tag
written_tag = record { z = pos 3; id = codes "w0" }

-- A reply of server `i`.
abbrev pub reply : ℕ → Kind → Bytes → Answer
reply i kind tag = record {
  server = (args i).server_id;
  object = object;
  kind = kind;
  op = 7;
  tag = tag;
  value = blob;
}

abbrev pub text : Bytes
text = codes "3_w0"

abbrev pub init_text : Bytes
init_text = codes "0_client_0"

pub reads_text : string_to_tag text ≡ some written_tag
unfolding string_to_tag atoi scan
reads_text = refl

pub reads_init : string_to_tag init_text ≡ some init_tag
unfolding string_to_tag atoi scan
reads_init = refl

module _ (i : ℕ) (kind : Kind) (small : i < 3) where
  is_text : IsText (args i).server_id
  is_text = ground arith

  pub reply-IsAnswer : IsAnswer (reply i kind text)
  reply-IsAnswer = record {
    server = is_text;
    object = (omega arith, omega arith);
    tag = written_tag;
    tag_text = omega arith;
    tag_short = omega arith;
    reads = reads_text;
    large = omega arith;
  }

  pub first_reply-IsAnswer : IsAnswer (reply i kind init_text)
  first_reply-IsAnswer = record {
    server = is_text;
    object = (omega arith, omega arith);
    tag = init_tag;
    tag_text = omega arith;
    tag_short = omega arith;
    reads = reads_init;
    large = omega arith;
  }

-- Server 2 has not seen the write; one acknowledgement comes twice too early.
abbrev pub answers : List Answer
answers =
    reply 0 Kind.write_value text
    ∷ reply 1 Kind.get_tag text
    ∷ reply 2 Kind.get_tag init_text
    ∷ reply 0 Kind.write_value text
    ∷ reply 2 Kind.write_value text
    ∷ []

abbrev pub read_answers : List Answer
read_answers =
    reply 0 Kind.get_tag text
    ∷ reply 1 Kind.get_tag_value text
    ∷ reply 2 Kind.get_tag_value init_text
    ∷ reply 1 Kind.write_value text
    ∷ reply 0 Kind.write_value text
    ∷ []

pub answers-IsAnswer : All IsAnswer answers
answers-IsAnswer = (
  reply-IsAnswer 0 Kind.write_value (omega arith),
  (
    reply-IsAnswer 1 Kind.get_tag (omega arith),
    (
      first_reply-IsAnswer 2 Kind.get_tag (omega arith),
      (
        reply-IsAnswer 0 Kind.write_value (omega arith),
        (reply-IsAnswer 2 Kind.write_value (omega arith), tt),
      ),
    ),
  ),
)

pub read_answers-IsAnswer : All IsAnswer read_answers
read_answers-IsAnswer = (
  reply-IsAnswer 0 Kind.get_tag (omega arith),
  (
    reply-IsAnswer 1 Kind.get_tag_value (omega arith),
    (
      first_reply-IsAnswer 2 Kind.get_tag_value (omega arith),
      (
        reply-IsAnswer 1 Kind.write_value (omega arith),
        (reply-IsAnswer 0 Kind.write_value (omega arith), tt),
      ),
    ),
  ),
)

text-InRange : InRange (reply 0 Kind.get_tag text)
text-InRange = rw reads_text (omega arith)

init-InRange : InRange (reply 0 Kind.get_tag init_text)
init-InRange = rw reads_init (omega arith)

pub answers-InRange : All InRange answers
answers-InRange = (text-InRange, (text-InRange, (init-InRange, (text-InRange, (text-InRange, tt)))))

pub read_answers-InRange : All InRange read_answers
read_answers-InRange =
    (text-InRange, (text-InRange, (init-InRange, (text-InRange, (text-InRange, tt)))))
