-- ===== src/Wal/Order.antt =====
-- What the flusher writes: the lines of the channel, in order, each once.
use brisedb.Prelude.{
  ℕ, zero, suc, ◌≤◌, ◌≡◌, refl, sym, ap, ◌∙◌, true, false, Option, none, some, List, [], ◌∷◌, ◌++◌,
  append_assoc, append-nil, length, arith,
}
use brisedb.Wal.{
  WalEntry, Msg, line, swap, barrier, Io, Flusher, entries_of, drain, round, run, after_batch,
  flush_and_signal, handle_special,
}

entries_of-append : (a b : List Msg) → entries_of (a ++ b) ≡ entries_of a ++ entries_of b
unfolding entries_of
entries_of-append [] b = refl
entries_of-append (line e w ∷ a) b = ap (◌∷◌ e) (entries_of-append a b)
entries_of-append (swap ∷ a) b = entries_of-append a b
entries_of-append (barrier ∷ a) b = entries_of-append a b

no_entries : (l : List WalEntry) → l ≡ l ++ entries_of []
unfolding entries_of
no_entries l = sym (append-nil l)

-- The drain loop loses no line and keeps their order.
drain-entries :
    (n : ℕ) (q : List Msg)
    → let (b, s, r) = drain n q in entries_of b ++ entries_of r ≡ entries_of q
unfolding drain entries_of
drain-entries zero q = refl
drain-entries (suc n) [] = refl
drain-entries (suc n) (line e w ∷ q) = ap (◌∷◌ e) (drain-entries n q)
drain-entries (suc n) (swap ∷ q) = refl
drain-entries (suc n) (barrier ∷ q) = refl

drain-length : (n : ℕ) (q : List Msg) → length (drain n q).2 ≤ length q
unfolding drain
drain-length zero q = omega arith
drain-length (suc n) [] = omega arith
drain-length (suc n) (line e w ∷ q) = omega (arith, drain-length n q)
drain-length (suc n) (swap ∷ q) = omega arith
drain-length (suc n) (barrier ∷ q) = omega arith

abbrev pub good : Io
good = record { flushes = true; syncs = true }

-- The flusher has met no error.
abbrev pub IsSound : Flusher → Type 0
IsSound f = f.broken ≡ false

handle_special-lines :
    (m : Msg) (f : Flusher)
    → IsSound f
    → ((handle_special good m f).lines ≡ f.lines) × IsSound (handle_special good m f)
unfolding handle_special
handle_special-lines m f h = ground arith

flush_and_signal-lines :
    (b : List Msg) (f : Flusher)
    → IsSound f
    → ((flush_and_signal good b f).lines ≡ f.lines ++ entries_of b)
      × IsSound (flush_and_signal good b f)
unfolding flush_and_signal
flush_and_signal-lines b f h = ground arith

after_batch-lines :
    (s : Option Msg) (f : Flusher)
    → IsSound f
    → ((after_batch good s f).lines ≡ f.lines) × IsSound (after_batch good s f)
unfolding after_batch
after_batch-lines none f h = (refl, h)
after_batch-lines (some m) f h = handle_special-lines m f h

-- One round writes some of the channel's lines behind those of the file, and leaves the others in
-- the channel: nothing is lost, doubled or moved.
round-lines :
    (q : List Msg) (f : Flusher)
    → IsSound f
    → let (f', r) = round good good q f in
      (f'.lines ++ entries_of r ≡ f.lines ++ entries_of q) × IsSound f'
unfolding round entries_of
round-lines [] f h = (refl, h)
round-lines (swap ∷ q) f h =
    let (e, s) = handle_special-lines swap f h in (ap (λ l. l ++ entries_of q) e, s)
round-lines (barrier ∷ q) f h =
    let (e, s) = handle_special-lines barrier f h in (ap (λ l. l ++ entries_of q) e, s)
round-lines (line x w ∷ q) f h =
    let (b, s, r) = drain 511 q in
    let f' = flush_and_signal good (line x w ∷ b) f in
    let (e, sound) = flush_and_signal-lines (line x w ∷ b) f h in
    let (e', sound') = after_batch-lines s f' sound in
    (
      ap (λ l. l ++ entries_of r) (e' ∙ e)
          ∙ append_assoc f.lines (x ∷ entries_of b) (entries_of r)
          ∙ ap (λ l. f.lines ++ x ∷ l) (drain-entries 511 q),
      sound',
    )

round-length :
    (m : Msg) (q : List Msg) (i j : Io) (f : Flusher) → length (round i j (m ∷ q) f).1 ≤ length q
unfolding round
round-length swap q i j f = omega arith
round-length barrier q i j f = omega arith
round-length (line x w) q i j f = drain-length 511 q

-- As long as the system takes every write, the flusher empties the channel and appends its lines to
-- the file, each once and in the order in which they were sent, whatever barriers and swaps
-- stand between them.
pub run-lines :
    (fuel : ℕ) (q : List Msg) (f : Flusher)
    → f.broken ≡ false
    → length q ≤ fuel
    → let (f', r) = run fuel good q f in (f'.lines ≡ f.lines ++ entries_of q) × (r ≡ [])
unfolding run round
run-lines zero [] f h small = (no_entries f.lines, refl)
run-lines zero (m ∷ q) f h small = absurd (omega arith)
run-lines (suc fuel) [] f h small =
    let (e, s) = round-lines [] f h in run-lines fuel [] (round good good [] f).0 s (omega arith)
run-lines (suc fuel) (m ∷ q) f h small =
    let (f', r) = round good good (m ∷ q) f in
    let (e, sound) = round-lines (m ∷ q) f h in
    let (e', done) = run-lines fuel r f' sound (omega (arith, round-length m q good good f)) in
    (e' ∙ e, done)
