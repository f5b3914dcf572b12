-- ===== src/Json/Text/Injective.antt =====
-- Different strings have different texts, whatever follows; so have different maps.
use accord.Base.{ℕ, true, [], ◌∷◌, Option, some, ◌≡◌, refl, ap, sym, ◌∙◌, arith, Bytes}
use accord.Json.Text.{append_string}
use accord.Base.{All, ◌≢◌}
use accord.Dict.{Dict}
use accord.Json.Text.{append_pair, append_more, append_object}
use accord.Json.Text.Reading.{plain, unquote}
use accord.Json.Text.Runes.{is_utf8, unquote-append_runes}

pub cons_rest : {a b : ℕ} {s t : Bytes} → ◌≡◌ {A = Bytes} (a ∷ s) (b ∷ t) → s ≡ t
cons_rest e = cc

pub cons_first : {a b : ℕ} {s t : Bytes} → ◌≡◌ {A = Bytes} (a ∷ s) (b ∷ t) → a ≡ b
cons_first e = cc

unquote_injective :
    (s t : Bytes) (r q : Bytes)
    → ◌≡◌ {A = Option (Bytes × Bytes)} (some (s, r)) (some (t, q))
    → (s ≡ t) × (r ≡ q)
unquote_injective s t r q e = (cc, cc)

-- The text of a UTF-8 string, with anything behind it, tells the string and what is behind it.
pub append_string_injective :
    (s t r q : Bytes)
    → is_utf8 0 s ≡ true
    → is_utf8 0 t ≡ true
    → append_string s r ≡ append_string t q
    → (s ≡ t) × (r ≡ q)
unfolding append_string
append_string_injective s t r q hs ht e = unquote_injective s t r q (
    sym (unquote-append_runes 0 s r hs)
    ∙ ap (unquote plain) (cons_rest e)
    ∙ unquote-append_runes 0 t q ht)

-- The keys and the values are UTF-8.
abbrev pub IsText : Dict Bytes → Type 0
IsText = All (λ e. (is_utf8 0 e.0 ≡ true) × (is_utf8 0 e.1 ≡ true))

append_pair_injective :
    (x y : Bytes × Bytes) (r q : Bytes)
    → (is_utf8 0 x.0 ≡ true) × (is_utf8 0 x.1 ≡ true)
    → (is_utf8 0 y.0 ≡ true) × (is_utf8 0 y.1 ≡ true)
    → append_pair x r ≡ append_pair y q
    → (x ≡ y) × (r ≡ q)
append_pair_injective (k, v) (j, w) r q (hk, hv) (hj, hw) e =
    let (same_key, more) =
      append_string_injective k j (b':' ∷ append_string v r) (b':' ∷ append_string w q) hk hj e in
    let (same_value, behind_it) = append_string_injective v w r q hv hw (cons_rest more) in
    (ap (λ a. (a, v)) same_key ∙ ap (λ b. (j, b)) same_value, behind_it)

append_more-end : (r : Bytes) → append_more [] r ≡ b'}' ∷ r
unfolding append_more
append_more-end r = refl

append_more-entry :
    (x : Bytes × Bytes) (m : Dict Bytes) (r : Bytes)
    → append_more (x ∷ m) r ≡ b',' ∷ append_pair x (append_more m r)
unfolding append_more
append_more-entry x m r = refl

no_entry : (s r q : Bytes) → b'}' ∷ r ≢ append_string s q
unfolding append_string
no_entry s r q e = omega (arith, cons_first e)

append_more_injective :
    (m n : Dict Bytes) (r q : Bytes)
    → IsText m
    → IsText n
    → append_more m r ≡ append_more n q
    → (m ≡ n) × (r ≡ q)
append_more_injective [] [] r q hm hn e =
    (refl, cons_rest (sym (append_more-end r) ∙ e ∙ append_more-end q))
append_more_injective [] (y ∷ n) r q hm hn e =
    absurd (omega (arith, cons_first (sym (append_more-end r) ∙ e ∙ append_more-entry y n q)))
append_more_injective (x ∷ m) [] r q hm hn e =
    absurd (omega (arith, cons_first (sym (append_more-entry x m r) ∙ e ∙ append_more-end q)))
append_more_injective (x ∷ m) (y ∷ n) r q (hx, hm) (hy, hn) e =
    let entries = cons_rest (sym (append_more-entry x m r) ∙ e ∙ append_more-entry y n q) in
    let (same, more) =
      append_pair_injective x y (append_more m r) (append_more n q) hx hy entries in
    let (same_rest, behind_it) = append_more_injective m n r q hm hn more in
    (ap (λ z. z ∷ m) same ∙ ap (λ z. y ∷ z) same_rest, behind_it)

-- The text of a list of entries, with anything behind it, tells the entries and what is behind them.
pub append_object_injective :
    (m n : Dict Bytes) (r q : Bytes)
    → IsText m
    → IsText n
    → append_object m r ≡ append_object n q
    → (m ≡ n) × (r ≡ q)
append_object_injective [] [] r q hm hn e = (refl, cons_rest (cons_rest e))
append_object_injective [] (y ∷ n) r q hm hn e =
    absurd (no_entry y.0 r (b':' ∷ append_string y.1 (append_more n q)) (cons_rest e))
append_object_injective (x ∷ m) [] r q hm hn e =
    absurd (no_entry x.0 q (b':' ∷ append_string x.1 (append_more m r)) (sym (cons_rest e)))
append_object_injective (x ∷ m) (y ∷ n) r q (hx, hm) (hy, hn) e =
    let (same, more) =
      append_pair_injective x y (append_more m r) (append_more n q) hx hy (cons_rest e) in
    let (same_rest, behind_it) = append_more_injective m n r q hm hn more in
    (ap (λ z. z ∷ m) same ∙ ap (λ z. y ∷ z) same_rest, behind_it)
