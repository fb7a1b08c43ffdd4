-- ===== src/Glob.antt =====
-- Glob matching of pkg/brisedb/session.go (globMatch, matchGlob), against the relation that the
-- pattern language means: `*` any sequence, `?` any single byte, all else itself.
mod Tests
use brisedb.Prelude.{
  ℕ, ◌≡◌, ◌≢◌, ◌↔◌, refl, sym, ◌⊎◌, ap, ◌∙◌, subst, inl, inr, Bool, true, false, ◌&&◌, ◌||◌, List,
  [], ◌∷◌, ◌++◌, Bytes, Bool-cases, ==_iff, ==_refl, nat_eq, ◌==◌, arith,
}

-- One pattern byte that is not `*`, and what has to match behind it.
unfoldable pub single : ℕ → (Bytes → Bool) → Bytes → Bool
single c rest [] = false
single c rest (x ∷ s) = (c == b'?' || c == x) && rest s

-- `for i := 0; i <= len(s); i++ { if f(s[i:]) { return true } }`
unfoldable pub any_suffix : (Bytes → Bool) → Bytes → Bool
any_suffix f [] = f []
any_suffix f (x ∷ s) = f (x ∷ s) || any_suffix f s

unfoldable pub is_empty : Bytes → Bool
is_empty [] = true
is_empty (x ∷ s) = false

unfoldable mutual
  unfolding single any_suffix is_empty

  pub match_glob : Bytes → Bytes → Bool
  match_glob [] s = is_empty s
  match_glob (c ∷ p) s = elim (c == b'*') [ true ↦ star p s | false ↦ single c (match_glob p) s ]

  -- Behind a `*`: more of them are skipped, and the rest of the pattern is tried at each suffix.
  pub star : Bytes → Bytes → Bool
  star [] s = true
  star (c ∷ p) s = elim (c == b'*') [
    | true ↦ star p s
    | false ↦ any_suffix (single c (match_glob p)) s
  ]

pub data Matches : Bytes → Bytes → Type 0 where
  end : {p s : Bytes} → p ≡ [] → s ≡ [] → Matches p s
  any : {p s : Bytes} (q u v : Bytes) → p ≡ b'*' ∷ q → s ≡ u ++ v → Matches q v → Matches p s
  one :
      {p s : Bytes} (q : Bytes) (x : ℕ) (t : Bytes)
      → p ≡ b'?' ∷ q
      → s ≡ x ∷ t
      → Matches q t
      → Matches p s
  same :
      {p s : Bytes} (c : ℕ) (q t : Bytes)
      → c ≢ b'*'
      → p ≡ c ∷ q
      → s ≡ c ∷ t
      → Matches q t
      → Matches p s

any_suffix_self : (f : Bytes → Bool) (s : Bytes) → f s ≡ true → any_suffix f s ≡ true
unfolding any_suffix
any_suffix_self f [] h = h
any_suffix_self f (x ∷ s) h = rw h refl

any_suffix-append : (f : Bytes → Bool) (u v : Bytes) → f v ≡ true → any_suffix f (u ++ v) ≡ true
unfolding any_suffix
any_suffix-append f [] v h = any_suffix_self f v h
any_suffix-append f (x ∷ u) v h = ground (arith, any_suffix-append f u v h)

any_suffix-split :
    (f : Bytes → Bool) (s : Bytes)
    → any_suffix f s ≡ true
    → (u : Bytes) × (v : Bytes) × (s ≡ u ++ v) × (f v ≡ true)
unfolding any_suffix
any_suffix-split f [] h = ([], [], refl, h)
any_suffix-split f (x ∷ s) h = elim (Bool-cases (f (x ∷ s))) [
  | inl here ↦ ([], x ∷ s, refl, here)
  | inr there ↦
      let (u, v, e, g) = any_suffix-split f s (rw there at h) in (x ∷ u, v, ap (◌∷◌ x) e, g)
]

-- A suffix of a suffix is a suffix.
any_suffix_twice : (f : Bytes → Bool) (s : Bytes) → any_suffix (any_suffix f) s ≡ any_suffix f s
unfolding any_suffix
any_suffix_twice f [] = refl
any_suffix_twice f (x ∷ s) = ground (arith, any_suffix_twice f s)

any_suffix_nil : (s : Bytes) → any_suffix (match_glob []) s ≡ true
unfolding any_suffix match_glob
any_suffix_nil [] = refl
any_suffix_nil (x ∷ s) = ground (arith, any_suffix_nil s)

any_suffix_ext :
    (f g : Bytes → Bool) (s : Bytes) → ((t : Bytes) → f t ≡ g t) → any_suffix f s ≡ any_suffix g s
unfolding any_suffix
any_suffix_ext f g [] h = h []
any_suffix_ext f g (x ∷ s) h = rw (h (x ∷ s), any_suffix_ext f g s h) refl

match_star : (c : ℕ) (p t : Bytes) → (c == b'*') ≡ true → match_glob (c ∷ p) t ≡ star p t
unfolding match_glob
match_star c p t h = ground arith

match_single :
    (c : ℕ) (p t : Bytes) → (c == b'*') ≡ false → match_glob (c ∷ p) t ≡ single c (match_glob p) t
unfolding match_glob
match_single c p t h = ground arith

star-star : (c : ℕ) (p s : Bytes) → (c == b'*') ≡ true → star (c ∷ p) s ≡ star p s
unfolding star
star-star c p s h = ground arith

star-single :
    (c : ℕ) (p s : Bytes)
    → (c == b'*') ≡ false
    → star (c ∷ p) s ≡ any_suffix (single c (match_glob p)) s
unfolding star
star-single c p s h = ground arith

star_nil : (s : Bytes) → star [] s ≡ true
unfolding star
star_nil s = refl

-- Skipping stars does not change what a star means.
star_lem : (p s : Bytes) → star p s ≡ any_suffix (match_glob p) s
star_lem [] s = star_nil s ∙ sym (any_suffix_nil s)
star_lem (c ∷ p) s = elim (Bool-cases (c == b'*')) [
  | inl h ↦
      star-star c p s h
      ∙ star_lem p s
      ∙ sym (any_suffix_twice (match_glob p) s)
      ∙ any_suffix_ext (any_suffix (match_glob p)) (match_glob (c ∷ p)) s
          (λ t. sym (match_star c p t h ∙ star_lem p t))
  | inr h ↦
      star-single c p s h
      ∙ any_suffix_ext (single c (match_glob p)) (match_glob (c ∷ p)) s
          (λ t. sym (match_single c p t h))
]

single_any :
    (q : Bytes) (x : ℕ) (t : Bytes)
    → match_glob q t ≡ true
    → single b'?' (match_glob q) (x ∷ t) ≡ true
unfolding single
single_any q x t h = h

single_same : (c : ℕ) (q t : Bytes) → match_glob q t ≡ true → single c (match_glob q) (c ∷ t) ≡ true
unfolding single
single_same c q t h = ground (arith, ==_refl c)

match_nil : match_glob [] [] ≡ true
unfolding match_glob
match_nil = refl

empty_lem : (s : Bytes) → match_glob [] s ≡ true → s ≡ []
unfolding match_glob
empty_lem [] h = refl
empty_lem (x ∷ s) h = cc

single_sound :
    (c : ℕ) (p s : Bytes)
    → (c == b'*') ≡ false
    → single c (match_glob p) s ≡ true
    → (x : ℕ) × (t : Bytes) × (s ≡ x ∷ t) × (match_glob p t ≡ true) × ((c ≡ b'?') ⊎ (c ≡ x))
unfolding single
single_sound c p [] h m = cc
single_sound c p (x ∷ t) h m =
    (x, t, refl, ground (arith, m), ground (arith, m, ==_iff c b'?', ==_iff c x))

match_glob_sound : (p s : Bytes) → match_glob p s ≡ true → Matches p s
match_glob_sound [] s h = end refl (empty_lem s h)
match_glob_sound (c ∷ p) s h = elim (Bool-cases (c == b'*')) [
  | inl e ↦
      let (u, v, q, m) =
        any_suffix-split (match_glob p) s (sym (star_lem p s) ∙ sym (match_star c p s e) ∙ h) in
      any p u v (ap (λ k. k ∷ p) ((==_iff c b'*').0 e)) q (match_glob_sound p v m)
  | inr e ↦
      let (x, t, q, m, which) = single_sound c p s e (sym (match_single c p s e) ∙ h) in
      elim which [
        | inl wild ↦ one p x t (ap (λ k. k ∷ p) wild) q (match_glob_sound p t m)
        | inr equal ↦
            same c p t (λ k. ground (arith, e, ==_iff c b'*')) refl (rw equal q)
              (match_glob_sound p t m)
      ]
]

match_glob_complete : (p s : Bytes) → Matches p s → match_glob p s ≡ true
match_glob_complete p s (end e f) = rw (e, f) match_nil
match_glob_complete p s (any q u v e f m) =
    rw (e, f)
      (match_star b'*' q (u ++ v) refl
        ∙ star_lem q (u ++ v)
        ∙ any_suffix-append (match_glob q) u v (match_glob_complete q v m))
match_glob_complete p s (one q x t e f m) =
    rw (e, f) (match_single b'?' q (x ∷ t) refl ∙ single_any q x t (match_glob_complete q t m))
match_glob_complete p s (same c q t n e f m) =
    rw (e, f)
      (match_single c q (c ∷ t) (ground (arith, n, ==_iff c b'*'))
        ∙ single_same c q t (match_glob_complete q t m))

-- The matcher answers true exactly on the strings that the pattern means.
pub match_glob-Matches : (p s : Bytes) → (match_glob p s ≡ true) ↔ Matches p s
match_glob-Matches p s = (match_glob_sound p s, match_glob_complete p s)
