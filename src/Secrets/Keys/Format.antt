-- ===== src/Secrets/Keys/Format.antt =====
-- Both formats of the keys in a secret: what is read from lines, and what reads back as written.
use mathlib.Core.List.{reverse, reverse-append, reverse-cons, reverse-reverse}
use vault_unsealer.Prelude.{
  ◌≡◌, ◌≢◌, refl, sym, ap, subst, ◌∙◌, false, List, [], ◌∷◌, ◌++◌, append_assoc, none,
  if◌then◌else◌, All,
}
use vault_unsealer.Text.{Text, is_empty}
use vault_unsealer.Text.Space.{space_prefix, space_suffix, trim_space, IsTrimmed}
use vault_unsealer.Text.Space.Laws.{
  trim_space-IsTrimmed, trim_space_of_IsTrimmed, space_prefix-StopsAtNewline,
  space_suffix-StopsAtNewline,
}
use vault_unsealer.Text.Lines.{split_lines, join_lines, split_lines-join_lines, NoNewline}
use vault_unsealer.Result.{ok}
use vault_unsealer.Secrets.Keys.{trimmed_lines, non_empty, is_bracketed, from_lines, parse_keys}

-- A key that a line can hold.
pub record IsLine (key : Text) : Type 0 where
  pub some_byte : key ≢ []
  pub trimmed : IsTrimmed key
  pub one_line : NoNewline key

-- A key as the line format delivers it.
abbrev pub IsDelivered : Text → Type 0
IsDelivered key = (key ≢ []) × IsTrimmed key

trimmed_lines-IsDelivered : (lines : List Text) → All IsDelivered (trimmed_lines lines)
unfolding trimmed_lines
trimmed_lines-IsDelivered [] = tt
trimmed_lines-IsDelivered (line ∷ lines) =
    delivered (trim_space line) (trim_space-IsTrimmed line) (trimmed_lines-IsDelivered lines)
  where
    delivered :
        (key : Text)
        → IsTrimmed key
        → All IsDelivered (trimmed_lines lines)
        → All IsDelivered (if is_empty key then trimmed_lines lines else key ∷ trimmed_lines lines)
    delivered [] h k = k
    delivered (a ∷ key) h k = (((λ e. cc), h), k)

trimmed_lines_of_IsLine : (keys : List Text) → All IsLine keys → trimmed_lines keys ≡ keys
unfolding trimmed_lines
trimmed_lines_of_IsLine [] h = refl
trimmed_lines_of_IsLine ([] ∷ keys) h = absurd (h.0.some_byte refl)
trimmed_lines_of_IsLine ((a ∷ key) ∷ keys) h =
    rw (trim_space_of_IsTrimmed (a ∷ key) h.0.trimmed)
      (ap (λ l. (a ∷ key) ∷ l) (trimmed_lines_of_IsLine keys h.1))

reverse-ne-nil : (s : Text) → s ≢ [] → reverse s ≢ []
reverse-ne-nil s h e = h (sym (reverse-reverse s) ∙ ap reverse e)

reverse-newline : (s j : Text) → reverse (s ++ 10 ∷ j) ≡ reverse j ++ 10 ∷ reverse s
reverse-newline s j = simp (reverse-append, reverse-cons, append_assoc)

-- The last line ends the text, so the text ends in no space.
join_lines-right :
    (k : Text) (ks : List Text)
    → All IsLine (k ∷ ks)
    → (space_suffix (reverse (join_lines (k ∷ ks))) ≡ none) × (join_lines (k ∷ ks) ≢ [])
unfolding join_lines
join_lines-right k [] h = (h.0.trimmed.right, h.0.some_byte)
join_lines-right [] (m ∷ ks) h = absurd (h.0.some_byte refl)
join_lines-right (a ∷ k) (m ∷ ks) h =
    let (right, some_byte) = join_lines-right m ks h.1 in
    let rest = join_lines (m ∷ ks) in
    (
      rw (reverse-newline (a ∷ k) rest) (
          space_suffix-StopsAtNewline (reverse rest) (reverse (a ∷ k))
            (reverse-ne-nil rest some_byte) right),
      λ e. cc,
    )

join_lines-left :
    (k : Text) (ks : List Text) → All IsLine (k ∷ ks) → space_prefix (join_lines (k ∷ ks)) ≡ none
unfolding join_lines
join_lines-left k [] h = h.0.trimmed.left
join_lines-left k (m ∷ ks) h =
    space_prefix-StopsAtNewline k (join_lines (m ∷ ks)) h.0.some_byte h.0.trimmed.left

join_lines-IsTrimmed :
    (k : Text) (ks : List Text) → All IsLine (k ∷ ks) → IsTrimmed (join_lines (k ∷ ks))
join_lines-IsTrimmed k ks h = record {
  left = join_lines-left k ks h;
  right = (join_lines-right k ks h).0;
}

All-NoNewline : (keys : List Text) → All IsLine keys → All NoNewline keys
All-NoNewline [] h = tt
All-NoNewline (k ∷ ks) h = (h.0.one_line, All-NoNewline ks h.1)

non_empty-eq-ok :
    (found keys : List Text) → non_empty found ≡ ok keys → (found ≡ keys) × (keys ≢ [])
unfolding non_empty
non_empty-eq-ok [] keys e = cc
non_empty-eq-ok (k ∷ ks) keys e = (cc, λ z. cc)

module _ (json_message : Text → Text) where
  -- One key or more, none of them empty, with a space at an end, or with a newline, are read back as
  -- they are when they are written one to a line, unless the text as a whole begins with "[" and
  -- ends with "]".
  pub parse_keys-join_lines :
      (k : Text) (ks : List Text)
      → All IsLine (k ∷ ks)
      → is_bracketed (join_lines (k ∷ ks)) ≡ false
      → parse_keys json_message (join_lines (k ∷ ks)) ≡ ok (k ∷ ks)
  unfolding parse_keys from_lines non_empty
  parse_keys-join_lines k ks h plain = rw (
    trim_space_of_IsTrimmed _ (join_lines-IsTrimmed k ks h),
    plain,
    split_lines-join_lines k ks (All-NoNewline (k ∷ ks) h),
    trimmed_lines_of_IsLine (k ∷ ks) h,
  )

  -- If the trimmed text does not begin with "[" and end with "]", and its keys are read, then there
  -- is one at least, and none is empty or has a space at an end.
  pub parse_keys-IsDelivered :
      (data' : Text) (keys : List Text)
      → is_bracketed (trim_space data') ≡ false
      → parse_keys json_message data' ≡ ok keys
      → (keys ≢ []) × All IsDelivered keys
  unfolding parse_keys from_lines
  parse_keys-IsDelivered data' keys plain e =
      let lines = split_lines (trim_space data') in
      let (same, some_key) = non_empty-eq-ok (trimmed_lines lines) keys (rw plain at e) in
      (some_key, subst (All IsDelivered) same (trimmed_lines-IsDelivered lines))
