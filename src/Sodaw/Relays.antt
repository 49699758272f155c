-- ===== src/Sodaw/Relays.antt =====
-- Recording a relayed element, and when it completes a read.
use mathlib.Core.Option.{some-injective}
use colas.Common.{
  ◌↔◌, ◌&&◌, streq_iff, ℕ, ◌≡◌, refl, sym, ◌∙◌, Bool, true, false, Option, none, some, List, [],
  ◌∷◌, if◌then◌else◌, arith, keep, leb, length, Bytes, streq, streq_refl, is_some, is_some→some,
  Bool-cases, inl, inr,
}
use colas.Tag.{Tag}
use colas.Client.Majority.{majority}
use colas.Sodaw.Dispatch.{record_relay}
use colas.Sodaw.Filed.{IsFiled, Open, complete-IsFiled}
use colas.Sodaw.History.{
  HistoryData, History, is_relay, history_data_keystring, lookup_keys, history_lookup,
}
use colas.Sodaw.Server.{SodawArgs, reaches, Server, complete}
use colas.Zhash.{Zhash, or_kept}
use colas.Zhash.Keys.{member, distinct, member-keep, distinct-keep}

abbrev pub relays : Bytes → ℕ → Bytes → Option HistoryData → Bool
relays readerid opnum tag none = false
relays readerid opnum tag (some his) = is_relay readerid opnum tag his

module _ (Z : Zhash) where
  lookup_keys_lem :
      (readerid : Bytes) (opnum : ℕ) (tag : Bytes) (keys : List Bytes) (h : History Z)
      → ((k : Bytes) → member k keys ≡ true → is_some (Z.lookup h k) ≡ true)
      → lookup_keys Z readerid opnum tag keys h
        ≡ some (keep (λ k. relays readerid opnum tag (Z.lookup h k)) keys)
  unfolding lookup_keys member
  lookup_keys_lem readerid opnum tag [] h p = refl
  lookup_keys_lem readerid opnum tag (key ∷ keys) h p =
      let (his, found) = is_some→some (Z.lookup h key) (p key (ground (arith, streq_refl key))) in
      rw (found, lookup_keys_lem readerid opnum tag keys h (λ k m. p k (ground arith)))
        (ground arith)

  -- The lookup does not fail, and finds exactly the entries of the operation that relay the tag.
  pub history_lookup_lem :
      (readerid : Bytes) (opnum : ℕ) (tag : Bytes) (h : History Z)
      → history_lookup Z readerid opnum tag h
        ≡ some (keep (λ k. relays readerid opnum tag (Z.lookup h k)) (Z.keys h))
  unfolding history_lookup
  history_lookup_lem readerid opnum tag h =
      lookup_keys_lem readerid opnum tag (Z.keys h) h (λ k m. sym (Z.member-keys h k) ∙ m)

  -- The state with the entry.
  abbrev pub recorded : Server Z → Bytes → HistoryData → Server Z
  recorded s key his = record s { history = Z.insert s.history key his }

  recorded-IsFiled :
      (s : Server Z) (key : Bytes) (his : HistoryData)
      → IsFiled Z s
      → reaches (Z.lookup s.readed his.readerid) his.opnum ≡ false
      → IsFiled Z (recorded s key his)
  recorded-IsFiled s key his f fresh = record {
    filed = f.filed;
    only_one = f.only_one;
    open_history = λ k. rw (Z.lookup-insert s.history key his k) (elim (Bool-cases (streq key k)) [
      | inl e ↦ rw e (kept (Z.lookup s.history key) (f.open_history key))
      | inr e ↦ rw e (f.open_history k)
    ]);
  }
    where
      kept : (o : Option HistoryData) → Open Z s.readed o → Open Z s.readed (some (or_kept o his))
      kept none h = fresh
      kept (some old) h = h

  -- The number of entries that relay the tag of `his` for its read, once it is recorded.
  abbrev pub relay_count : Server Z → Bytes → HistoryData → ℕ
  relay_count s key his = length (
      keep
        (λ k.
          relays his.readerid his.opnum his.send_tag_str (Z.lookup (recorded s key his).history k))
        (Z.keys (recorded s key his).history))

  -- The state behind the relay.
  pub record_relay_state :
      (args : SodawArgs) (s : Server Z) (his : HistoryData) (tag : Tag) (key : Bytes)
      → IsFiled Z s
      → reaches (Z.lookup s.readed his.readerid) his.opnum ≡ false
      → history_data_keystring his ≡ some key
      → (s' : Server Z) × (record_relay Z args s his tag ≡ some s')
        × ((if leb (majority args.num_servers) (relay_count s key his)
              then complete Z (recorded s key his) tag his.readerid his.opnum
              else some (recorded s key his))
            ≡ some s')
        × IsFiled Z s'
        × (s'.objects ≡ s.objects)
  unfolding record_relay
  record_relay_state args s his tag key f fresh k =
      let g = recorded-IsFiled s key his f fresh in
      let (s', done, h, same) =
        complete-IsFiled Z (recorded s key his) tag his.readerid his.opnum g in
      elim (Bool-cases (leb (majority args.num_servers) (relay_count s key his))) [
        | inl e ↦ (
          s',
          rw
              (
                k,
                history_lookup_lem his.readerid his.opnum his.send_tag_str
                    (recorded s key his).history,
                e,
              )
              done,
          rw e done,
          h,
          same,
        )
        | inr e ↦ (
          recorded s key his,
          rw
              (
                k,
                history_lookup_lem his.readerid his.opnum his.send_tag_str
                    (recorded s key his).history,
                e,
              )
              refl,
          rw e refl,
          g,
          refl,
        )
      ]

  -- An entry for the reader, the operation and the relayed tag of `his`.
  abbrev pub RelaysWith : HistoryData → HistoryData → Type 0
  RelaysWith his entry =
      (entry.readerid ≡ his.readerid)
      × (entry.opnum ≡ his.opnum)
      × (entry.send_tag_str ≡ his.send_tag_str)

  relays_iff :
      (his : HistoryData) (o : Option HistoryData)
      → (relays his.readerid his.opnum his.send_tag_str o ≡ true)
        ↔ ((entry : HistoryData) × (o ≡ some entry) × RelaysWith his entry)
  relays_iff his none = (λ p. absurd (cc p), λ (entry, e, same). absurd (cc e))
  relays_iff his (some entry) = (
    λ p. (
      entry,
      refl,
      (
        sym ((streq_iff his.readerid entry.readerid).0 (ground arith)),
        ground arith,
        sym ((streq_iff his.send_tag_str entry.send_tag_str).0 (ground arith)),
      ),
    ),
    λ (entry', e, (r, n, t)).
        let same : entry ≡ entry' = some-injective entry entry' e in
        rw (same, r, n, t, streq_refl his.readerid, streq_refl his.send_tag_str) (ground arith),
  )

  -- With well-formed tables, recording a relay of a read that is not complete, whose key fits its
  -- buffer, does not fail and keeps the tables well-formed; it completes the read exactly if the
  -- keys of the history under which there is an entry with the same reader, operation number and
  -- relayed tag are as many as a majority. The objects stay as they are.
  pub record_relay_lem :
      (args : SodawArgs) (s : Server Z) (his : HistoryData) (tag : Tag) (key : Bytes)
      → IsFiled Z s
      → reaches (Z.lookup s.readed his.readerid) his.opnum ≡ false
      → history_data_keystring his ≡ some key
      → (s' : Server Z) × (found : List Bytes) × (record_relay Z args s his tag ≡ some s')
        × (distinct found ≡ true)
        × ((k : Bytes)
            → (member k found ≡ true) ↔ (
                (entry : HistoryData) × (Z.lookup (recorded s key his).history k ≡ some entry)
                × RelaysWith his entry))
        × ((if leb (majority args.num_servers) (length found)
              then complete Z (recorded s key his) tag his.readerid his.opnum
              else some (recorded s key his))
            ≡ some s')
        × IsFiled Z s'
        × (s'.objects ≡ s.objects)
  record_relay_lem args s his tag key f fresh k =
      let (s', done, how, g, same) = record_relay_state args s his tag key f fresh k in
      let h = (recorded s key his).history in
      let test : Bytes → Bool =
        λ k. relays his.readerid his.opnum his.send_tag_str (Z.lookup h k) in
      (
        s',
        keep test (Z.keys h),
        done,
        distinct-keep test (Z.keys h) (Z.distinct-keys h),
        λ k. (
          λ m.
              (relays_iff his (Z.lookup h k)).0
                (both (member k (Z.keys h)) (test k) (sym (member-keep test k (Z.keys h)) ∙ m)),
          λ (entry, e, with).
              let there : member k (Z.keys h) ≡ true = Z.member-keys h k ∙ rw e refl in
              let passes : test k ≡ true = (relays_iff his (Z.lookup h k)).1 (entry, e, with) in
              member-keep test k (Z.keys h) ∙ rw (there, passes) refl,
        ),
        how,
        g,
        same,
      )
    where
      both : (a b : Bool) → (a && b) ≡ true → b ≡ true
      both a b p = ground arith
