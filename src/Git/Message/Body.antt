-- ===== src/Git/Message/Body.antt =====
-- What the body of a commit lists.
use accord.Base.{
  ℕ, zero, suc, ◌≤◌, List, [], ◌∷◌, ◌++◌, Bytes, codes, length, append_assoc, append-nil, ◌≡◌, refl,
  ap, sym, ◌∙◌, arith, ◌⊎◌, inl, inr,
}
use accord.Strings.{join, strings}
use accord.Strings.Affixes.{trim_suffix-append}
use accord.Decimal.{decimal}
use accord.Git.Message.{newline, max_paths, body_lines, commit_body}

-- The line that counts the paths left out; no line if there are none.
abbrev pub and_more : List Bytes → Bytes
and_more [] = []
and_more (p ∷ paths) =
    newline ++ (codes "... and " ++ (decimal (length (p ∷ paths)) ++ codes " more"))

lines_fit :
    (p : Bytes) (shown : List Bytes) (room : ℕ)
    → length (p ∷ shown) ≤ room
    → body_lines room (p ∷ shown) ≡ join (p ∷ shown) b'\n' ++ newline
unfolding body_lines join
lines_fit p shown zero h = absurd (omega (arith, h))
lines_fit p [] (suc room) h = refl
lines_fit p (q ∷ shown) (suc room) h =
    rw (lines_fit q shown room (omega (arith, h))) (simp append_assoc refl)

lines_full :
    (p : Bytes) (shown : List Bytes) (q : Bytes) (rest : List Bytes) (room : ℕ)
    → length (p ∷ shown) ≡ room
    → body_lines room (p ∷ (shown ++ q ∷ rest))
      ≡ (join (p ∷ shown) b'\n' ++ and_more (q ∷ rest)) ++ newline
unfolding body_lines join
lines_full p shown q rest zero h = absurd (omega (arith, h))
lines_full p [] q rest (suc zero) h = simp append_assoc refl
lines_full p [] q rest (suc (suc room)) h = absurd (omega (arith, h))
lines_full p (r ∷ shown) q rest (suc room) h =
    rw (lines_full r shown q rest room (omega (arith, h))) (simp append_assoc refl)

commit_body_nil : commit_body [] ≡ []
unfolding commit_body body_lines strings
commit_body_nil = refl

commit_body-fit :
    (p : Bytes) (shown : List Bytes)
    → length (p ∷ shown) ≤ max_paths
    → commit_body (p ∷ shown) ≡ join (p ∷ shown) b'\n'
unfolding commit_body
commit_body-fit p shown h =
    rw (lines_fit p shown max_paths h) (trim_suffix-append (join (p ∷ shown) b'\n') newline)

commit_body-full :
    (p : Bytes) (shown : List Bytes) (q : Bytes) (rest : List Bytes)
    → length (p ∷ shown) ≡ max_paths
    → commit_body (p ∷ (shown ++ q ∷ rest)) ≡ join (p ∷ shown) b'\n' ++ and_more (q ∷ rest)
unfolding commit_body
commit_body-full p shown q rest h =
    rw (lines_full p shown q rest max_paths h)
      (trim_suffix-append (join (p ∷ shown) b'\n' ++ and_more (q ∷ rest)) newline)

fits :
    (shown : List Bytes)
    → length shown ≤ max_paths
    → commit_body (shown ++ []) ≡ join shown b'\n' ++ []
unfolding join
fits [] h = commit_body_nil
fits (p ∷ shown) h =
    ap (λ l. commit_body (p ∷ l)) (append-nil shown)
    ∙ commit_body-fit p shown h
    ∙ sym (append-nil (join (p ∷ shown) b'\n'))

-- The body of a commit lists up to ten paths, one on a line and no more; of a longer list the first
-- ten, and a line that counts the others.
pub commit_body_lem :
    (shown rest : List Bytes)
    → ((length shown ≤ max_paths) × (rest ≡ [])) ⊎ (length shown ≡ max_paths)
    → commit_body (shown ++ rest) ≡ join shown b'\n' ++ and_more rest
commit_body_lem shown rest (inl (h, none_left)) = rw none_left (fits shown h)
commit_body_lem shown [] (inr full) = fits shown (omega (arith, full))
commit_body_lem [] (q ∷ rest) (inr full) = absurd (omega (arith, full))
commit_body_lem (p ∷ shown) (q ∷ rest) (inr full) = commit_body-full p shown q rest full
