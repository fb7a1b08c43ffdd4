-- ===== src/Glob/Tests.antt =====
-- Runs of the matcher.
use brisedb.Prelude.{◌≡◌, ◌↔◌, refl, true, false, [], ◌∷◌, Bytes}
use brisedb.Glob.{match_glob, star, single, any_suffix, is_empty, Matches, match_glob-Matches}

abbrev pattern_ab : Bytes
pattern_ab = b'a' ∷ b'*' ∷ b'?' ∷ b'b' ∷ []

abbrev text_ab : Bytes
text_ab = b'a' ∷ b'x' ∷ b'y' ∷ b'b' ∷ []

match_glob-Matches_example : (match_glob pattern_ab text_ab ≡ true) ↔ Matches pattern_ab text_ab
match_glob-Matches_example = match_glob-Matches pattern_ab text_ab

match_glob_hit : match_glob pattern_ab text_ab ≡ true
unfolding match_glob star single any_suffix is_empty
match_glob_hit = refl

match_glob_miss : match_glob pattern_ab (b'a' ∷ b'b' ∷ []) ≡ false
unfolding match_glob star single any_suffix is_empty
match_glob_miss = refl
