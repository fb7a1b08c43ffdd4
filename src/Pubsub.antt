-- ===== src/Pubsub.antt =====
-- pkg/brisedb/pubsub.go: which client listens to which channel. A client is the number of its Go
-- channel; which of those are full when a message is sent is an argument.
mod Tests
use brisedb.Prelude.{
  ℕ, zero, suc, ◌+◌, ◌≤◌, ◌≡◌, refl, sym, ap, ◌∙◌, inl, inr, Bool, true, false, not, ◌&&◌, ◌||◌,
  Option, none, some, List, [], ◌∷◌, Bytes, length, if◌then◌else◌, ◌==◌, ==_iff, ==_refl, nat_eq,
  list_eq, Bool-cases, Option-cases, arith,
}
use brisedb.Prelude.Assoc.{
  Assoc, lookup, insert, delete, lookup-insert, lookup-delete, mem, discard, mem-discard,
}

abbrev pub PubSub : Type 0
PubSub = Assoc Bytes (List ℕ)

-- `ps.subs[channel]`, empty where there is none.
unfoldable pub subscribers : Bytes → PubSub → List ℕ
subscribers channel ps = elim (lookup channel ps) [ none ↦ [] | some l ↦ l ]

-- Subscribe
unfoldable pub subscribe : ℕ → Bytes → PubSub → PubSub
subscribe c channel ps =
    let l = subscribers channel ps in insert channel (if mem c l then l else c ∷ l) ps

abbrev put_back : Bytes → List ℕ → PubSub → PubSub
put_back channel [] ps = delete channel ps
put_back channel (c ∷ l) ps = insert channel (c ∷ l) ps

-- Unsubscribe: a channel without subscribers is dropped.
unfoldable pub unsubscribe : ℕ → Bytes → PubSub → PubSub
unsubscribe c channel ps = put_back channel (discard c (subscribers channel ps)) ps

abbrev keep : Bytes → List ℕ → PubSub → PubSub
keep channel [] ps = ps
keep channel (c ∷ l) ps = (channel, c ∷ l) ∷ ps

-- UnsubscribeAll
unfoldable pub unsubscribe_all : ℕ → PubSub → PubSub
unsubscribe_all c [] = []
unsubscribe_all c ((channel, l) ∷ ps) = keep channel (discard c l) (unsubscribe_all c ps)

-- The loop of Publish: the clients that get the message.
unfoldable pub deliver : (ℕ → Bool) → List ℕ → List ℕ
deliver full [] = []
deliver full (c ∷ cs) = let rest = deliver full cs in if full c then rest else c ∷ rest

-- Publish
unfoldable pub publish : (ℕ → Bool) → Bytes → PubSub → List ℕ × ℕ
publish full channel ps = let got = deliver full (subscribers channel ps) in (got, length got)

subscribers-insert :
    (j k : Bytes) (l : List ℕ) (ps : PubSub)
    → subscribers j (insert k l ps) ≡ (if k == j then l else subscribers j ps)
unfolding subscribers
subscribers-insert j k l ps = ground (arith, lookup-insert k j l ps)

subscribers-put_back :
    (j k : Bytes) (l : List ℕ) (ps : PubSub)
    → subscribers j (put_back k l ps) ≡ (if k == j then l else subscribers j ps)
unfolding subscribers
subscribers-put_back j k [] ps = ground (arith, lookup-delete k j ps)
subscribers-put_back j k (c ∷ l) ps = subscribers-insert j k (c ∷ l) ps

-- Subscribing adds the client to its channel, and unsubscribing takes it away; no other client and
-- no other channel is touched.
pub mem-subscribe :
    (c d : ℕ) (channel j : Bytes) (ps : PubSub)
    → (mem d (subscribers j (subscribe c channel ps))
        ≡ (((channel == j) && (c == d)) || mem d (subscribers j ps)))
      × (mem d (subscribers j (unsubscribe c channel ps))
          ≡ (mem d (subscribers j ps) && not ((channel == j) && (c == d))))
unfolding subscribe unsubscribe mem
mem-subscribe c d channel j ps =
    let l = subscribers channel ps in
    (
      ground (
        arith,
        subscribers-insert j channel (if mem c l then l else c ∷ l) ps,
        ==_iff channel j,
        ==_iff c d,
        ap (λ i. subscribers i ps),
        ap (λ i. mem i l),
      ),
      ground (
        arith,
        subscribers-put_back j channel (discard c l) ps,
        mem-discard d c l,
        ==_iff channel j,
        ap (λ i. subscribers i ps),
      ),
    )

mem-keep :
    (c : ℕ) (k j : Bytes) (l : List ℕ) (ps : PubSub)
    → mem c l ≡ false
    → mem c (subscribers j ps) ≡ false
    → mem c (subscribers j (keep k l ps)) ≡ false
unfolding subscribers lookup
mem-keep c k j [] ps h rest = rest
mem-keep c k j (d ∷ l) ps h rest = ground (arith, h, rest)

-- A client that closes its connection is on no channel.
pub mem-unsubscribe_all :
    (c : ℕ) (ps : PubSub) (j : Bytes) → mem c (subscribers j (unsubscribe_all c ps)) ≡ false
unfolding subscribers unsubscribe_all lookup mem
mem-unsubscribe_all c [] j = refl
mem-unsubscribe_all c ((k, l) ∷ ps) j =
    mem-keep c k j (discard c l) (unsubscribe_all c ps)
      (mem-discard c c l ∙ ground (arith, ==_refl c)) (mem-unsubscribe_all c ps j)

deliver-mem :
    (full : ℕ → Bool) (l : List ℕ) (c : ℕ) → mem c (deliver full l) ≡ (mem c l && not (full c))
unfolding deliver mem
deliver-mem full [] c = refl
deliver-mem full (d ∷ l) c = ground (arith, deliver-mem full l c, ==_iff d c, ap full)

-- A message reaches exactly the subscribers of its channel whose buffer is not full.
pub mem-publish :
    (full : ℕ → Bool) (channel : Bytes) (ps : PubSub) (c : ℕ)
    → mem c (publish full channel ps).0 ≡ (mem c (subscribers channel ps) && not (full c))
unfolding publish
mem-publish full channel ps c = deliver-mem full (subscribers channel ps) c
