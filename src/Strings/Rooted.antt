-- ===== src/Strings/Rooted.antt =====
-- Absolute paths of plain elements: they are clean, and joining paths below one directory tells
-- different paths apart.
use accord.Base.{◌≢◌, true, List, [], ◌∷◌, ◌++◌, ◌≡◌, refl, sym, ap, ◌∙◌, append_assoc, Bytes, All}
use accord.Strings.{split, join, slash, resolve_all, resolve, clean_parts, clean, has_prefix}
use accord.Strings.Parts.{split-append, split-join}
use accord.Strings.Cleaning.{IsPlain, Lacks-of_IsPlain, clean_parts_of_IsPlain}

pub join-append :
    (p q : Bytes) (ps qs : List Bytes)
    → join (p ∷ ps) slash ++ slash ∷ join (q ∷ qs) slash ≡ join ((p ∷ ps) ++ (q ∷ qs)) slash
unfolding join
join-append p q [] qs = refl
join-append p q (r ∷ ps) qs =
    append_assoc p (slash ∷ join (r ∷ ps) slash) (slash ∷ join (q ∷ qs) slash)
    ∙ ap (λ t. p ++ slash ∷ t) (join-append r q ps qs)

-- The empty element before the first slash is left out.
clean_parts-rooted : (s : Bytes) → clean_parts true (slash ∷ s) ≡ clean_parts true s
unfolding clean_parts resolve_all resolve
clean_parts-rooted s = rw (split-append slash [] s tt) refl

pub clean-rooted :
    (p : Bytes) (ps : List Bytes)
    → All IsPlain (p ∷ ps)
    → clean (slash ∷ join (p ∷ ps) slash) ≡ slash ∷ join (p ∷ ps) slash
unfolding clean has_prefix
clean-rooted p ps h =
    ap (λ parts. slash ∷ join parts slash)
      (clean_parts-rooted (join (p ∷ ps) slash) ∙ clean_parts_of_IsPlain true p ps h)

-- A directory is given by its elements below the root.
abbrev pub directory : List Bytes → Bytes
directory parts = slash ∷ join parts slash

-- The elements of a path that is written with plain ones.
rooted-split :
    (parts : List Bytes) → parts ≢ [] → All IsPlain parts → split (join parts slash) slash ≡ parts
rooted-split [] n h = absurd (n refl)
rooted-split (p ∷ ps) n h = split-join slash p ps (Lacks-of_IsPlain (p ∷ ps) h)

pub join_injective :
    (parts other : List Bytes)
    → parts ≢ []
    → other ≢ []
    → All IsPlain parts
    → All IsPlain other
    → join parts slash ≡ join other slash
    → parts ≡ other
join_injective parts other n m h k e =
    sym (rooted-split parts n h) ∙ ap (λ t. split t slash) e ∙ rooted-split other m k
