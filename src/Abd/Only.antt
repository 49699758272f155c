-- ===== src/Abd/Only.antt =====
-- Over any run, the servers of src/abd/abd_server.c keep only tags and values that were written.
use colas.Common.{ℕ, ◌≡◌, List, ◌==◌, arith, Bytes, streq, Bool-cases, inl, inr}
use colas.Tag.{Tag}
use colas.Store.Entry.{Entry, View, put_entry}
use colas.Abd.Server.{ServerArgs}
use colas.Abd.Spec.{IsAbd, next_entry}
use colas.Abd.System.{System, Serves, Serves_lem, Run, here, then_serves, At, IsRequest, held}
use colas.Wire.Delivery.{Request, write_value, get_tag, get_tag_value}
use colas.Zhash.{Zhash}

module _ (P : Tag → Bytes → Type 0) where
  -- What a request writes.
  abbrev pub Writes : (q : Request) → IsAbd q → Type 0
  Writes (write_value op t v) h = P h.0 v
  Writes _ h = Unit

  next_entry-keeps :
      (e : Entry) (q : Request) (h : IsAbd q)
      → Writes q h
      → P e.tag e.value
      → P (next_entry e q h).tag (next_entry e q h).value
  next_entry-keeps e (write_value op t v) h p k = ground (arith, p, k)
  next_entry-keeps e (get_tag op) h p k = k
  next_entry-keeps e (get_tag_value op) h p k = k
  next_entry-keeps e (Request.write_get _) h p k = absurd h
  next_entry-keeps e (Request.read_get _) h p k = absurd h
  next_entry-keeps e (Request.write_put _ _ _) h p k = absurd h
  next_entry-keeps e (Request.read_value _ _) h p k = absurd h
  next_entry-keeps e (Request.read_complete _ _) h p k = absurd h
  next_entry-keeps e (Request.read_disperse _ _ _ _) h p k = absurd h

module _ (Z : Zhash) (args : ℕ → ServerArgs) (P : Tag → Bytes → Type 0) where
  -- Server `i` has only such tags and values; so has an object that it creates.
  abbrev pub Only : System Z args → ℕ → Type 0
  Only s i =
      (view : View) × At Z args s i view
      × ((o : Bytes) → P (held Z args view i o).tag (held Z args view i o).value)

  -- All tags and values that are written in the run, at whatever server, are such.
  abbrev pub AllWrites : (s s' : System Z args) → Run Z args s s' → Type 0
  AllWrites s s' here = Unit
  AllWrites s s' (then_serves {s' = middle} {q = q} run iq v) =
      AllWrites s middle run × Writes P q iq.0

  serving-Only :
      {s s' : System Z args} {i : ℕ} {sender o : Bytes} {q : Request} {replies : List (List Bytes)}
      (iq : IsRequest Z args o q)
      → Serves Z args s i sender o q replies s'
      → Writes P q iq.0
      → Only s i
      → Only s' i
  serving-Only {i = i} {o = o} {q = q} iq v writes (view, at, has) =
      let e = held Z args view i o in
      (
        put_entry view o (next_entry e q iq.0),
        (Serves_lem Z args iq view v at).1,
        λ other. elim (Bool-cases (streq o other)) [
          | inl p ↦ rw p (next_entry-keeps P e q iq.0 writes (has o))
          | inr p ↦ rw p (has other)
        ],
      )

  Serves-Only :
      {s s' : System Z args} {j : ℕ} {sender o : Bytes} {q : Request} {replies : List (List Bytes)}
      (i : ℕ) (iq : IsRequest Z args o q)
      → Serves Z args s j sender o q replies s'
      → Writes P q iq.0
      → Only s i
      → Only s' i
  Serves-Only {s} {s'} {j} i iq v writes h = elim (Bool-cases (j == i)) [
    | inl e ↦ let same : i ≡ j = ground arith in rw same (serving-Only iq v writes (rw same at h))
    | inr e ↦ (h.0, rw (v.after, e) h.1, h.2)
  ]

  pub Run-Only :
      (s s' : System Z args) (i : ℕ) (run : Run Z args s s')
      → AllWrites s s' run
      → Only s i
      → Only s' i
  Run-Only s s' i here writes h = h
  Run-Only s s' i (then_serves {s' = middle} run iq v) writes h =
      Serves-Only i iq v writes.1 (Run-Only s middle i run writes.0 h)
