-- ===== src/Collections.antt =====
-- Go's sets of strings (`map[string]struct{}`) and `sort.Strings`. A set is the list of its keys in
-- the order in which a `range` meets them, each once.
pub mod Sorting
use accord.Base.{◌||◌, List, [], ◌∷◌, ◌++◌, Bytes, ◌==◌, lex_lt, contains, if◌then◌else◌}

-- `seen[p] = struct{}{}`
unfoldable pub add : Bytes → List Bytes → List Bytes
add p seen = if contains seen p then seen else seen ++ (p ∷ [])

-- `delete(seen, p)`
unfoldable pub delete : Bytes → List Bytes → List Bytes
delete p [] = []
delete p (q ∷ seen) = let rest = delete p seen in if q == p then rest else q ∷ rest

unfoldable pub insert_sorted : Bytes → List Bytes → List Bytes
insert_sorted p [] = p ∷ []
insert_sorted p (q ∷ l) = let rest = insert_sorted p l in if lex_lt q p then q ∷ rest else p ∷ q ∷ l

-- `sort.Strings`
unfoldable pub sort_strings : List Bytes → List Bytes
sort_strings [] = []
sort_strings (p ∷ l) = insert_sorted p (sort_strings l)

unfoldable pub collections : Unit {0}
unfolding ◌==◌ lex_lt add delete insert_sorted sort_strings
collections = tt
