-- ===== src/Pool/Cached.antt =====
-- Read with its cache: the cache holds only what the volumes hold, so that a read returns the same
-- with it and without it.
use brisedb.Prelude.{
  ℕ, ◌+◌, ◌^◌, ◌<◌, ◌≡◌, ◌↔◌, ◌⊎◌, refl, sym, ap, ◌∙◌, inl, inr, true, Option, none, some, [], ◌∷◌,
  ◌++◌, Bytes, length, ==_iff, ltb, lt→ltb, ltb→lt, Bool-cases, arith, subst,
}
use brisedb.Types.{NeedleAddr, addr_eq, Result, ok, err, panic, u64}
use brisedb.Volume.{Volume}
use brisedb.Volume as Vol
use brisedb.Lru.{Cache, find}
use brisedb.Lru as Lru
use brisedb.Lru.Evict.{Entries, IsValid}
use brisedb.Lru.Invariant.{get_lem, set_fresh}
use brisedb.Pool.{all_backends, VolumePool, Env}
use brisedb.Pool.Transfer.{put_cached, read_hit, read_with, write, fetch, remember, read}
use brisedb.Pool.Failover.{Sendable}
use brisedb.Pool.Members.{manager_of}
use brisedb.Pool.Groups.{Group-same, Alike-same, Synced, Synced-same}
use brisedb.Pool.Replicas.{Works}
use brisedb.Pool.Durability.{reached, fetch-Synced}
use brisedb.Pool.Written.{write-Stored}

-- Every entry of a cache is the blob of its address.
pub record Coherent (vols : ℕ → Volume) (c : Cache) : Type 0 where
  pub valid : IsValid c
  pub blobs :
      (a : NeedleAddr) (x : Bytes) → find a c.list ≡ some x → Vol.read a (vols a.volume_id) ≡ ok x

abbrev pub CacheOk : (ℕ → Volume) → Option Cache → Type 0
CacheOk vols none = Unit
CacheOk vols (some c) = Coherent vols c

CacheOk-old :
    (vols vols' : ℕ → Volume) (o : Option Cache)
    → ((b : NeedleAddr) (x : Bytes)
        → Vol.read b (vols b.volume_id) ≡ ok x
        → Vol.read b (vols' b.volume_id) ≡ ok x)
    → CacheOk vols o
    → CacheOk vols' o
CacheOk-old vols vols' none h k = tt
CacheOk-old vols vols' (some c) h k = record {
  valid = k.valid;
  blobs = λ a x f. h a x (k.blobs a x f);
}

find-append_some :
    (k : NeedleAddr) (l r : Entries) (x : Bytes) → find k l ≡ some x → find k (l ++ r) ≡ some x
unfolding find
find-append_some k [] r x h = absurd (ground (arith, h))
find-append_some k ((j, v) ∷ l) r x h = ground (arith, find-append_some k l r x, h)

set_large :
    (a : NeedleAddr) (d : Bytes) (c : Cache) → c.max_bytes < length d → Lru.set a d c ≡ some c
unfolding Lru.set
set_large a d c h = rw (lt→ltb c.max_bytes (length d) h) refl

find_head :
    (a j : NeedleAddr) (d x : Bytes) (l : Entries)
    → find j ((a, d) ∷ l) ≡ some x
    → ((a ≡ j) × (d ≡ x)) ⊎ (find j l ≡ some x)
unfolding find
find_head a j d x l h = ground (arith, h, ==_iff a j)

-- A blob that is remembered under an address that the cache does not hold.
set-Coherent :
    (vols : ℕ → Volume) (a : NeedleAddr) (d : Bytes) (c : Cache)
    → Coherent vols c
    → find a c.list ≡ none
    → Vol.read a (vols a.volume_id) ≡ ok d
    → (c' : Cache) × (Lru.set a d c ≡ some c') × Coherent vols c'
set-Coherent vols a d c k absent found = elim (Bool-cases (ltb c.max_bytes (length d))) [
  | inl large ↦ (c, set_large a d c (ltb→lt c.max_bytes (length d) large), k)
  | inr fits ↦
      let (c', kept, dropped, run, valid, front, split, m) =
        set_fresh c a d k.valid (ground (arith, fits)) absent in
      (
        c',
        run,
        record {
          valid = valid;
          blobs = λ j x h. elim (find_head a j d x kept (rw front at h)) [
            | inl (e, g) ↦ subst (λ i. Vol.read i (vols i.volume_id) ≡ ok x) e (found ∙ ap ok g)
            | inr old ↦ k.blobs j x (ap (find j) split ∙ find-append_some j kept dropped x old)
          ];
        },
      )
]

-- The invariant does not speak of the cache.
cache-Synced :
    (vols : ℕ → Volume) (o : Option Cache) (p : VolumePool)
    → Synced vols p
    → Synced vols (record p { cache = o })
unfolding all_backends manager_of
cache-Synced vols o p s = record {
  groups = λ id g k.
      Group-same g id (vols id) p (record p { cache = o }) (λ u j. refl) (s.groups id g k);
  below = s.below;
  unregistered = s.unregistered;
  fresh = λ id k.
      Alike-same (all_backends p) id (vols id) p (record p { cache = o }) (λ u j. refl)
        (s.fresh id k);
  active = s.active;
  whole = s.whole;
  named = s.named;
  urls = s.urls;
  factor = s.factor;
}

-- A read of the pool: what it returns, and what it leaves.
pub record Reads (vols : ℕ → Volume) (e : Env) (a : NeedleAddr) (p : VolumePool)
    (q : VolumePool × Result Bytes) : Type 0 where
  pub sound : (x : Bytes) → q.1 ≡ ok x → Vol.read a (vols a.volume_id) ≡ ok x
  pub complete :
      (x : Bytes) → reached e a p ≡ true → Vol.read a (vols a.volume_id) ≡ ok x → q.1 ≡ ok x
  pub synced : Synced vols q.0
  pub cached : CacheOk vols q.0.cache

put_cached-Reads :
    (vols : ℕ → Volume) (e : Env) (a : NeedleAddr) (d : Bytes) (o : Option Cache) (p q : VolumePool)
    → Synced vols q
    → q.cache ≡ o
    → CacheOk vols o
    → ((c : Cache) → o ≡ some c → find a c.list ≡ none)
    → Vol.read a (vols a.volume_id) ≡ ok d
    → Reads vols e a p (put_cached a d o q)
put_cached-Reads vols e a d none p q s same k absent found = record {
  sound = λ x h. found ∙ h;
  complete = λ x h g. sym found ∙ g;
  synced = s;
  cached = rw same tt;
}
put_cached-Reads vols e a d (some c) p q s same k absent found =
    let (c', run, k') = set-Coherent vols a d c k (absent c refl) found in
    rw (run, put_cached)
      (record {
        sound = λ x h. found ∙ h;
        complete = λ x h g. sym found ∙ g;
        synced = cache-Synced vols (some c') q s;
        cached = k';
      })

remember-Reads :
    (vols : ℕ → Volume) (e : Env) (a : NeedleAddr) (p : VolumePool) (f : VolumePool × Result Bytes)
    → Synced vols f.0
    → CacheOk vols f.0.cache
    → ((c : Cache) → f.0.cache ≡ some c → find a c.list ≡ none)
    → ((x : Bytes)
        → (f.1 ≡ ok x) ↔ ((reached e a p ≡ true) × (Vol.read a (vols a.volume_id) ≡ ok x)))
    → Reads vols e a p (remember a f)
unfolding remember
remember-Reads vols e a p (q, ok d) s k absent r =
    put_cached-Reads vols e a d q.cache p q s refl k absent ((r d).0 refl).1
remember-Reads vols e a p (q, err y) s k absent r = record {
  sound = λ x h. ((r x).0 h).1;
  complete = λ x h g. (r x).1 (h, g);
  synced = s;
  cached = k;
}
remember-Reads vols e a p (q, panic) s k absent r = record {
  sound = λ x h. ((r x).0 h).1;
  complete = λ x h g. (r x).1 (h, g);
  synced = s;
  cached = k;
}

read_hit-Reads :
    (vols : ℕ → Volume) (e : Env) (a : NeedleAddr) (hit : Option Bytes) (p : VolumePool)
    → Synced vols p
    → CacheOk vols p.cache
    → Sendable a
    → ((c : Cache) → p.cache ≡ some c → find a c.list ≡ hit)
    → ((x : Bytes) → hit ≡ some x → Vol.read a (vols a.volume_id) ≡ ok x)
    → Reads vols e a p (read_hit e a hit p)
unfolding read_hit
read_hit-Reads vols e a (some d) p s k t here blobs = record {
  sound = λ x h. blobs d refl ∙ h;
  complete = λ x h g. sym (blobs d refl) ∙ g;
  synced = s;
  cached = k;
}
read_hit-Reads vols e a none p s k t here blobs =
    let (r, l) = fetch-Synced vols e a p s t in
    remember-Reads vols e a p (fetch e a p) (Synced-same vols p (fetch e a p).0 s l.volumes l.books)
      (rw l.books.cache k) (λ c h. here c (sym l.books.cache ∙ h)) r

reached_cache :
    (e : Env) (a : NeedleAddr) (o : Option Cache) (p : VolumePool)
    → reached e a (record p { cache = o }) ≡ reached e a p
unfolding reached
reached_cache e a o p = refl

read_with-Reads :
    (vols : ℕ → Volume) (e : Env) (a : NeedleAddr) (o : Option Cache) (p : VolumePool)
    → Synced vols p
    → p.cache ≡ o
    → CacheOk vols o
    → Sendable a
    → Reads vols e a p (read_with e a o p)
unfolding read_with
read_with-Reads vols e a none p s same k t =
    read_hit-Reads vols e a none p s (rw same tt) t (λ c h. absurd (ground (arith, same, h)))
      (λ x h. absurd (ground (arith, h)))
read_with-Reads vols e a (some c) p s same k t =
    let (hit, valid, all) = get_lem c a k.valid in
    let c' = (Lru.get a c).0 in
    let k' : Coherent vols c' = record {
      valid = valid;
      blobs = λ j x h. k.blobs j x (sym (all j) ∙ h);
    } in
    let r =
      read_hit-Reads vols e a (Lru.get a c).1 (record p { cache = some c' })
        (cache-Synced vols (some c') p s) k' t
        (λ (d : Cache) h.
          let e' : c' ≡ d = ground (arith, h) in
          ap (λ (y : Cache). find a y.list) (sym e') ∙ all a ∙ sym hit)
        (λ x h. k.blobs a x (sym hit ∙ h)) in
    record {
      sound = r.sound;
      complete = λ x h g. r.complete x (reached_cache e a (some c') p ∙ h) g;
      synced = r.synced;
      cached = r.cached;
    }

-- A read of a pool that keeps its invariant finds nothing but the blob of its address, and finds it
-- wherever a member can be reached; and the invariant is kept, the one of the cache included.
pub read-Reads :
    (vols : ℕ → Volume) (e : Env) (a : NeedleAddr) (p : VolumePool)
    → Synced vols p
    → CacheOk vols p.cache
    → Sendable a
    → Reads vols e a p (read e a p)
unfolding read
read-Reads vols e a p s k t = read_with-Reads vols e a p.cache p s refl k t

-- A blob that is written to a pool whose members hold the same volumes, with nothing failing, is
-- read back under the address that the write returned, through the cache or not, as long as one
-- member of its group answers; so is every blob that could be read before. The pool can number two
-- more groups, and every volume has room for the blob.
pub read-write_pool :
    (vols : ℕ → Volume) (e : Env) (d : Bytes) (p : VolumePool)
    → Synced vols p
    → CacheOk vols p.cache
    → e.saves ≡ true
    → ((u : Bytes) → Works (e.trip u))
    → p.next_id + 2 < 2 ^ 32
    → ((id : ℕ) → (vols id).end + (8 + length d) < u64)
    → let (p', r) = write e d p in
      (a : NeedleAddr) × (r ≡ ok a)
      × ((e' : Env) → reached e' a p' ≡ true → (read e' a p').1 ≡ ok d)
      × ((e' : Env) (b : NeedleAddr) (x : Bytes)
          → Sendable b
          → (read e' b p).1 ≡ ok x
          → reached e' b p' ≡ true
          → (read e' b p').1 ≡ ok x)
read-write_pool vols e d p s k saved works small room =
    let w = write-Stored vols e d p s saved works small room in
    let p' = (write e d p).0 in
    let k' : CacheOk w.volumes p'.cache = rw w.cache (CacheOk-old vols w.volumes p.cache w.old k) in
    (
      w.address,
      w.result,
      λ e' up. (read-Reads w.volumes e' w.address p' w.synced k' w.sendable).complete d up w.found,
      λ e' b x t h up.
          (read-Reads w.volumes e' b p' w.synced k' t).complete x up
            (w.old b x ((read-Reads vols e' b p s k t).sound x h)),
    )
