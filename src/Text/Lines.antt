-- ===== src/Text/Lines.antt =====
-- strings.Split and strings.Join with the separator "\n".
use vault_unsealer.Prelude.{
  ℕ, ◌≡◌, refl, ap, ◌∙◌, ◌≢◌, List, [], ◌∷◌, ◌++◌, All, arith, ◌==◌, if◌then◌else◌,
}
use vault_unsealer.Text.{Text}

abbrev newline : ℕ
newline = 10

-- Put a byte in front of the first line.
onto_first : ℕ → List Text → List Text
onto_first c [] = (c ∷ []) ∷ []
onto_first c (l ∷ ls) = (c ∷ l) ∷ ls

unfoldable pub split_lines : Text → List Text
unfolding onto_first
split_lines [] = [] ∷ []
split_lines (c ∷ s) =
    let rest = split_lines s in if c == newline then [] ∷ rest else onto_first c rest

unfoldable pub join_lines : List Text → Text
join_lines [] = []
join_lines (l ∷ []) = l
join_lines (l ∷ m ∷ ls) = l ++ newline ∷ join_lines (m ∷ ls)

abbrev pub NoNewline : Text → Type 0
NoNewline = All (λ c. c ≢ 10)

onto_first-NoNewline :
    (c : ℕ) (ls : List Text) → c ≢ 10 → All NoNewline ls → All NoNewline (onto_first c ls)
unfolding onto_first
onto_first-NoNewline c [] h k = ((h, tt), tt)
onto_first-NoNewline c (l ∷ ls) h k = ((h, k.0), k.1)

pub split_lines-NoNewline : (s : Text) → All NoNewline (split_lines s)
unfolding split_lines
split_lines-NoNewline [] = (tt, tt)
split_lines-NoNewline (c ∷ s) =
    ground (arith, split_lines-NoNewline s, onto_first-NoNewline c (split_lines s))

-- A line in front of a text that continues after a newline.
split_lines-cons : (l s : Text) → NoNewline l → split_lines (l ++ 10 ∷ s) ≡ l ∷ split_lines s
unfolding split_lines
split_lines-cons [] s h = refl
split_lines-cons (c ∷ l) s h = ground (arith, split_lines-cons l s h.1)

split_lines-line : (l : Text) → NoNewline l → split_lines l ≡ l ∷ []
unfolding split_lines
split_lines-line [] h = refl
split_lines-line (c ∷ l) h = ground (arith, split_lines-line l h.1)

pub split_lines-join_lines :
    (l : Text) (ls : List Text)
    → All NoNewline (l ∷ ls)
    → split_lines (join_lines (l ∷ ls)) ≡ l ∷ ls
unfolding join_lines
split_lines-join_lines l [] h = split_lines-line l h.0
split_lines-join_lines l (m ∷ ls) h =
    split_lines-cons l (join_lines (m ∷ ls)) h.0 ∙ ap (λ t. l ∷ t) (split_lines-join_lines m ls h.1)
