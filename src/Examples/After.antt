-- ===== src/Examples/After.antt =====
-- Three servers of SODAW after a write that two of them took, and what they send when asked.
use mathlib.Core.Path.{subst}
use colas.Common.{ℕ, ◌≡◌, refl, arith, List, [], ◌∷◌, map, codes, streq, All, inl, inr}
use colas.Common.Int.{pos, ◌<ℤ◌}
use colas.Abd.Ends.{matching}
use colas.Abd.Quorum.{IsQuorum}
use colas.Client.Majority.{majority}
use colas.Client.Polls.{items}
use colas.Client.Reply.{Answer, Kind, answer_frames, kind_phase}
use colas.Sodaw.Asked.{AsksTag}
use colas.Sodaw.Only.{Only, AllPuts, Run-Only}
use colas.Sodaw.Quorum.{Acked, Replied}
use colas.Sodaw.System.{Serves, put_server, Run, here, then_serves, IsRequest}
use colas.Sodaw.Whole.{IsStripe, Delivered}
use colas.Wire.Delivery.{Request}
use colas.Words
use colas.Zhash.Assoc.{assoc}
use colas.Examples.Codec.{repeated, info}
use colas.Examples.Data.{object, caller, written_tag, reply, text, init_text, reads_text}
use colas.Examples.Reader
use colas.Examples.Reader.{written, shares}
use colas.Examples.Storage.{
  server_args, start, element_of, served, Receives, Tells, stored, received, told, share, serving,
  first, after, first_serves, second_serves, write-IsRequest, nothing, start-At,
}
use colas.Examples.Writer
use colas.Examples.Writer.{acknowledged}

pub later : Run assoc server_args first after
later = then_serves here (write-IsRequest 2) second_serves

pub acked : All (Acked assoc server_args after object written_tag) (0 ∷ 2 ∷ [])
acked = (
  record {
    before = start;
    after = first;
    sender = codes "id";
    client = codes "w0";
    t = text;
    v = element_of 0;
    op = 1;
    replies = (stored 0).server.to_clients;
    view = nothing;
    well_formed = start-At 0;
    fits = write-IsRequest 0;
    reads = reads_text;
    serves = first_serves;
    later = later;
  },
  (
    record {
      before = first;
      after = after;
      sender = codes "id";
      client = codes "w0";
      t = text;
      v = element_of 2;
      op = 1;
      replies = (stored 2).server.to_clients;
      view = nothing;
      well_formed = start-At 2;
      fits = write-IsRequest 2;
      reads = reads_text;
      serves = second_serves;
      later = here;
    },
    tt,
  ),
)

-- What the servers send when they are asked after the write.
pub sends :
    (i : ℕ) (q : Request) (a : Answer)
    → Receives (codes "w1") q
    → Tells i q (after i) a
    → Serves assoc server_args after i
        (codes "id")
        (codes "w1")
        object
        q
        ((codes "id" ∷ answer_frames a) ∷ [])
        (put_server assoc server_args after i (served i (codes "w1") q (after i)))
sends i q a taken (handled, tells) =
    subst
      (λ r.
        Serves assoc server_args after i (codes "id") (codes "w1") object q r
          (put_server assoc server_args after i (served i (codes "w1") q (after i))))
      tells (serving after i (codes "w1") q (served i (codes "w1") q (after i)) taken handled)

pub replied :
    (i : ℕ) (q : Request) (a : Answer)
    → AsksTag q
    → Receives (codes "w1") q
    → Tells i q (after i) a
    → Replied assoc server_args after object i a
replied i q a asks taken tells = record {
  before = after;
  after = put_server assoc server_args after i (served i (codes "w1") q (after i));
  sender = codes "id";
  client = codes "w1";
  q = q;
  asks = asks;
  named = (omega arith, omega arith);
  run = here;
  serves = sends i q a taken tells;
}

abbrev pub for_write : List (ℕ × Answer)
for_write =
    (0, reply 0 Kind.write_get text)
    ∷ (1, reply 1 Kind.write_get init_text)
    ∷ (2, reply 2 Kind.write_get text)
    ∷ []

pub for_write-Replied : All (λ p. Replied assoc server_args after object p.0 p.1) for_write
for_write-Replied = (
  replied 0 (Request.write_get 7) (reply 0 Kind.write_get text) tt received.1 (told 0).0,
  (
    replied 1 (Request.write_get 7) (reply 1 Kind.write_get init_text) tt received.1 (told 1).1,
    (replied 2 (Request.write_get 7) (reply 2 Kind.write_get text) tt received.1 (told 2).0, tt),
  ),
)

abbrev pub for_read : List (ℕ × Answer)
for_read = (0, reply 0 Kind.read_get text) ∷ (1, reply 1 Kind.read_get init_text) ∷ []

pub for_read-Replied : All (λ p. Replied assoc server_args after object p.0 p.1) for_read
for_read-Replied = (
  replied 0 (Request.read_get 7) (reply 0 Kind.read_get text) tt received.2 (told 0).2,
  (replied 1 (Request.read_get 7) (reply 1 Kind.read_get init_text) tt received.2 (told 1).3, tt),
)

pub acked-IsQuorum : IsQuorum 3 (0 ∷ 2 ∷ [])
unfolding majority
acked-IsQuorum = record {
  distinct = ((refl, tt), (tt, tt));
  below = (omega arith, (omega arith, tt));
  many = omega arith;
}

pub read-IsQuorum : IsQuorum 3 (0 ∷ 1 ∷ [])
unfolding majority
read-IsQuorum = record {
  distinct = ((refl, tt), (tt, tt));
  below = (omega arith, (omega arith, tt));
  many = omega arith;
}

pub write-IsQuorum : IsQuorum 3 (0 ∷ 1 ∷ 2 ∷ [])
unfolding majority
write-IsQuorum = record {
  distinct = ((refl, (refl, tt)), ((refl, tt), (tt, tt)));
  below = (omega arith, (omega arith, (omega arith, tt)));
  many = omega arith;
}

pub write_collected :
    map (λ p. p.1) for_write ≡ matching caller Words.write_get (items Writer.asked)
unfolding kind_phase streq items
write_collected = refl

pub read_collected : map (λ p. p.1) for_read ≡ matching caller Words.read_get (items Reader.asked)
unfolding kind_phase streq items
read_collected = refl

-- What the servers were given is its stripes.
pub is_stripe : (i : ℕ) → IsStripe repeated info written i text (element_of i)
is_stripe i = inr (refl, refl, (refl, (refl, tt)))

pub start-Only : (i : ℕ) → Only assoc server_args (IsStripe repeated info written) start i
start-Only i = (nothing, start-At i, λ o. inl refl)

pub run : Run assoc server_args start after
run =
    then_serves (then_serves here (write-IsRequest 0) first_serves) (write-IsRequest 2)
      second_serves

pub run_puts : AllPuts assoc server_args (IsStripe repeated info written) start after run
unfolding run
run_puts = ((tt, is_stripe 0), is_stripe 2)

pub after-Only : (i : ℕ) → Only assoc server_args (IsStripe repeated info written) after i
after-Only i =
    Run-Only assoc server_args (IsStripe repeated info written) start after i run run_puts
      (start-Only i)

pub read-IsRequest :
    IsRequest assoc server_args (codes "id") (codes "w1") object (Request.read_value 7 text)
read-IsRequest = (
  (((omega arith, omega arith), (written_tag, reads_text)), omega arith),
  (omega arith, omega arith),
  (omega arith, omega arith),
  (omega arith, omega arith),
)

pub delivered :
    (i : ℕ)
    → Tells i (Request.read_value 7 text) (after i) (share i)
    → Delivered assoc server_args repeated info written after i (share i)
delivered i tells = record {
  before = after;
  after =
      put_server assoc server_args after i
        (served i (codes "w1") (Request.read_value 7 text) (after i));
  sender = codes "id";
  client = codes "w1";
  o = object;
  identity = codes "id";
  q = Request.read_value 7 text;
  replies = (codes "id" ∷ answer_frames (share i)) ∷ [];
  run = here;
  fits = read-IsRequest;
  serves = sends i (Request.read_value 7 text) (share i) received.3 tells;
  all_puts = tt;
  puts = tt;
  one = inl refl;
}

pub positive : pos 0 <ℤ written_tag.z
positive = omega arith
