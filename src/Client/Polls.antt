-- ===== src/Client/Polls.antt =====
-- The loops of src/sodaw/sodaw_client.c and src/sodaw/sodaw_reader.c, which poll for 5 ms at a time
-- and end at a poll that times out once they have enough.
use colas.Common.{
  ◌≡◌, refl, Bool, true, false, Option, none, some, List, [], ◌∷◌, ◌++◌, map, foldl, ◌>>=◌,
  if◌then◌else◌, Bytes,
}
use colas.Client.Loop.{Wait, done, waiting}

-- What `zmq_poll` returns: no message within its time, or a message.
pub data Poll : Type 0 where
  timed_out : Poll
  arrived : (msg : List Bytes) → Poll

unfoldable pub poll_loop :
    {S : Type 0}
    → (S → Bool)
    → (S → List Bytes → Option S)
    → S
    → List Poll
    → Option (Wait S × List Poll)
poll_loop finished round s [] = some (waiting s, [])
poll_loop finished round s (timed_out ∷ polls) =
    let rest = poll_loop finished round s polls in if finished s then some (done s, polls) else rest
poll_loop finished round s (arrived msg ∷ polls) = do
  s' ← round s msg
  poll_loop finished round s' polls

-- The messages, for a loop that polls without a time.
unfoldable pub arrivals : List Poll → List (List Bytes)
arrivals [] = []
arrivals (timed_out ∷ polls) = arrivals polls
arrivals (arrived msg ∷ polls) = msg ∷ arrivals polls

-- The items that arrive between the times that nothing does.
unfoldable pub items : {X : Type 0} → List (Option X) → List X
items [] = []
items (none ∷ es) = items es
items (some x ∷ es) = x ∷ items es

unfoldable pub polls_of : {X : Type 0} → (X → List Bytes) → List (Option X) → List Poll
polls_of wire [] = []
polls_of wire (none ∷ es) = timed_out ∷ polls_of wire es
polls_of wire (some x ∷ es) = arrived (wire x) ∷ polls_of wire es

pub arrivals-polls_of :
    {X : Type 0} (wire : X → List Bytes) (es : List (Option X))
    → arrivals (polls_of wire es) ≡ map wire (items es)
unfolding arrivals polls_of items
arrivals-polls_of wire [] = refl
arrivals-polls_of wire (none ∷ es) = arrivals-polls_of wire es
arrivals-polls_of wire (some x ∷ es) = rw (arrivals-polls_of wire es) refl

module _ {S X : Type 0} (wire : X → List Bytes) (finished : S → Bool) (next : S → X → S)
    (round : S → List Bytes → Option S) where
  -- A round takes what the state makes of an item, wherever the item is fine.
  abbrev pub Takes : (S → X → Type 0) → Type 0
  Takes Fine = (s : S) (x : X) → Fine s x → round s (wire x) ≡ some (next s x)

  -- At every time that nothing arrives, the loop does not have enough; every item is fine where it
  -- arrives.
  abbrev pub Busy : (S → X → Type 0) → S → List (Option X) → Type 0
  Busy Fine s [] = Unit
  Busy Fine s (none ∷ es) = (finished s ≡ false) × Busy Fine s es
  Busy Fine s (some x ∷ es) = Fine s x × Busy Fine (next s x) es

  -- The loop goes on to the first poll that times out when it has enough.
  pub poll_loop_lem :
      (Fine : S → X → Type 0)
      → Takes Fine
      → (s : S) (es : List (Option X)) (later : List Poll) → Busy Fine s es
      → finished (foldl next s (items es)) ≡ true
      → poll_loop finished round s (polls_of wire es ++ timed_out ∷ later)
        ≡ some (done (foldl next s (items es)), later)
  unfolding poll_loop polls_of items
  poll_loop_lem Fine takes s [] later busy enough = rw enough refl
  poll_loop_lem Fine takes s (none ∷ es) later (more, busy) enough =
      rw more (poll_loop_lem Fine takes s es later busy enough)
  poll_loop_lem Fine takes s (some x ∷ es) later (fine, busy) enough =
      rw (takes s x fine) (poll_loop_lem Fine takes (next s x) es later busy enough)
