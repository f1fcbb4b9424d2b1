-- ===== src/Core/Settings/Origins.antt =====
-- Proofs about app/core/config.py: the list of allowed origins.
use bridge_pay_backend.Common.{
  ◌≡◌, ◌∙◌, refl, ap, Bool, true, ◌&&◌, not, List, [], ◌∷◌, ◌++◌, map, ◌==◌, some, arith,
}
use bridge_pay_backend.Common.Table.{select}
use bridge_pay_backend.Common.Text.{
  Str, is_space, stripped, left_stripped, right_stripped, split, join, is_given,
}
use bridge_pay_backend.Core.Settings.{Settings, allowed_origins_list}

-- No space and no comma.
unfoldable pub is_plain : Str → Bool
is_plain [] = true
is_plain (c ∷ s) = not (is_space c) && not (c == b',') && is_plain s

-- An origin as one is written: it is not empty, and has no space and no comma.
unfoldable pub are_origins : List Str → Bool
unfolding is_plain
are_origins [] = true
are_origins (o ∷ os) = is_given (some o) && is_plain o && are_origins os

right_stripped-plain : (s : Str) → is_plain s ≡ true → right_stripped s ≡ s
unfolding is_plain right_stripped
right_stripped-plain [] h = refl
right_stripped-plain (c ∷ []) h = ground arith
right_stripped-plain (c ∷ d ∷ s) h = rw (right_stripped-plain (d ∷ s) (ground arith)) refl

stripped-plain : (s : Str) → is_plain s ≡ true → stripped s ≡ s
unfolding stripped left_stripped is_plain right_stripped
stripped-plain [] h = refl
stripped-plain (c ∷ s) h = ground (arith, right_stripped-plain (c ∷ s) h)

split-plain : (s : Str) → is_plain s ≡ true → split b',' s ≡ s ∷ []
unfolding split is_plain
split-plain [] h = refl
split-plain (c ∷ s) h = ground (arith, split-plain s)

split-append : (s t : Str) → is_plain s ≡ true → split b',' (s ++ (b',' ∷ t)) ≡ s ∷ split b',' t
unfolding split is_plain
split-append [] t h = refl
split-append (c ∷ s) t h = ground (arith, split-append s t)

split-join :
    (o : Str) (os : List Str)
    → are_origins (o ∷ os) ≡ true
    → split b',' (join b',' (o ∷ os)) ≡ o ∷ os
unfolding join are_origins
split-join o [] h = split-plain o (ground arith)
split-join o (p ∷ os) h =
    split-append o (join b',' (p ∷ os)) (ground arith)
    ∙ ap (λ r. o ∷ r) (split-join p os (ground arith))

kept_whole :
    (os : List Str) → are_origins os ≡ true → select (λ o. is_given (some o)) (map stripped os) ≡ os
unfolding are_origins select
kept_whole [] h = refl
kept_whole (o ∷ os) h = ground (arith, stripped-plain o, kept_whole os)

-- Origins without spaces and commas, none of them empty, are read back from ALLOWED_ORIGINS as they were
-- written there with commas between them.
pub allowed_origins_list-join :
    (settings : Settings) (os : List Str)
    → are_origins os ≡ true
    → settings.allowed_origins ≡ join b',' os
    → allowed_origins_list settings ≡ os
unfolding allowed_origins_list are_origins select split join stripped
allowed_origins_list-join settings [] h e = rw e refl
allowed_origins_list-join settings (o ∷ os) h e = rw (e, split-join o os h) (kept_whole (o ∷ os) h)
