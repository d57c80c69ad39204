-- ===== src/AwsAuthV4/Trim/Words.antt =====
-- Trimming and squeezing keeps the words of the text and puts one space between them.
use mathlib.Core.List.{concat-ne-nil}
use ats_plugin_experiment.Base.{
  ℕ, true, false, List, [], ◌∷◌, ◌++◌, append_assoc, append-nil, Bytes, All, ◌≡◌, ◌≢◌, ◌⊎◌, inl,
  inr, refl, sym, ap, ◌∙◌, Bool-cases, is_space,
}
use ats_plugin_experiment.AwsAuthV4.Trim.{
  squeeze_go, trim_white_spaces, trim_white_spaces_and_squeeze_inner_spaces,
}
use ats_plugin_experiment.AwsAuthV4.Trim.Ends.{
  IsSpace, StartsSolid, EndsSolid, TrimOf, trim_white_spaces-TrimOf,
}

-- A finished word in front of the words that follow; no word is empty.
abbrev finish : Bytes → List Bytes → List Bytes
finish [] ws = ws
finish (c ∷ w) ws = (c ∷ w) ∷ ws

words_go : Bytes → Bytes → List Bytes
words_go word [] = finish word []
words_go word (c ∷ s) = elim (is_space c) [
  | true ↦ finish word (words_go [] s)
  | false ↦ words_go (word ++ c ∷ []) s
]

-- The longest runs of bytes that are no white space.
unfoldable pub words : Bytes → List Bytes
unfolding words_go
words s = words_go [] s

-- The words with one space between two.
unfoldable pub join : List Bytes → Bytes
join [] = []
join (w ∷ []) = w
join (w ∷ v ∷ ws) = w ++ b' ' ∷ join (v ∷ ws)

words_go-space :
    (word : Bytes) (c : ℕ) (s : Bytes)
    → is_space c ≡ true
    → words_go word (c ∷ s) ≡ finish word (words_go [] s)
unfolding words_go
words_go-space word c s h = rw (h, words_go)

words_go-solid :
    (word : Bytes) (c : ℕ) (s : Bytes)
    → is_space c ≡ false
    → words_go word (c ∷ s) ≡ words_go (word ++ c ∷ []) s
unfolding words_go
words_go-solid word c s h = rw (h, words_go)

squeeze_go-solid :
    (prev c : ℕ) (s : Bytes) → is_space c ≡ false → squeeze_go prev (c ∷ s) ≡ c ∷ squeeze_go c s
unfolding squeeze_go
squeeze_go-solid prev c s h = rw h

squeeze_go-first_space :
    (prev c : ℕ) (s : Bytes)
    → is_space c ≡ true
    → is_space prev ≡ false
    → squeeze_go prev (c ∷ s) ≡ b' ' ∷ squeeze_go c s
unfolding squeeze_go
squeeze_go-first_space prev c s h k = rw (h, k)

squeeze_go-more_space :
    (prev c : ℕ) (s : Bytes)
    → is_space c ≡ true
    → is_space prev ≡ true
    → squeeze_go prev (c ∷ s) ≡ squeeze_go c s
unfolding squeeze_go
squeeze_go-more_space prev c s h k = rw (h, k)

-- Space around a text adds no word.
words_go_white : (right : Bytes) → All IsSpace right → words_go [] right ≡ []
words_go_white [] h = unfold words_go in refl
words_go_white (c ∷ s) (hc, h) = words_go-space [] c s hc ∙ words_go_white s h

finish-nil : (word : Bytes) → words_go word [] ≡ finish word []
unfolding words_go
finish-nil word = refl

words_go_right :
    (word s right : Bytes) → All IsSpace right → words_go word (s ++ right) ≡ words_go word s
words_go_right word [] [] h = refl
words_go_right word [] (c ∷ s) (hc, h) =
    words_go-space word c s hc ∙ ap (finish word) (words_go_white s h) ∙ sym (finish-nil word)
words_go_right word (c ∷ s) right h = elim (Bool-cases (is_space c)) [
  | inl white ↦
      words_go-space word c (s ++ right) white
      ∙ ap (finish word) (words_go_right [] s right h)
      ∙ sym (words_go-space word c s white)
  | inr solid ↦
      words_go-solid word c (s ++ right) solid
      ∙ words_go_right (word ++ c ∷ []) s right h
      ∙ sym (words_go-solid word c s solid)
]

words_go_left : (left s : Bytes) → All IsSpace left → words_go [] (left ++ s) ≡ words_go [] s
words_go_left [] s h = refl
words_go_left (c ∷ left) s (hc, h) = words_go-space [] c (left ++ s) hc ∙ words_go_left left s h

words-TrimOf : (s t : Bytes) → TrimOf s t → words_go [] s ≡ words_go [] t
words-TrimOf s t h =
    ap (words_go []) h.splits
    ∙ words_go_left h.left (t ++ h.right) h.left_white
    ∙ words_go_right [] t h.right h.right_white

finish-ne-nil : (word : Bytes) (ws : List Bytes) → word ≢ [] → finish word ws ≡ word ∷ ws
finish-ne-nil [] ws h = absurd (h refl)
finish-ne-nil (c ∷ w) ws h = refl

EndsSolid-tail : (c : ℕ) (s : Bytes) → EndsSolid (c ∷ s) → (s ≡ []) ⊎ EndsSolid s
EndsSolid-tail c [] h = inl refl
EndsSolid-tail c (d ∷ s) h = inr h

EndsSolid-space : (c : ℕ) (s : Bytes) → is_space c ≡ true → EndsSolid (c ∷ s) → EndsSolid s
EndsSolid-space c [] w h = absurd (cc (w, h))
EndsSolid-space c (d ∷ s) w h = h

-- A started word is delivered.
words_go-ne-nil_word : (word s : Bytes) → word ≢ [] → words_go word s ≢ []
words_go-ne-nil_word word [] h e = absurd (cc (finish-nil word, finish-ne-nil word [] h, e))
words_go-ne-nil_word word (c ∷ s) h e = elim (Bool-cases (is_space c)) [
  | inl white ↦ cc (words_go-space word c s white, finish-ne-nil word (words_go [] s) h, e)
  | inr solid ↦
      words_go-ne-nil_word (word ++ c ∷ []) s (concat-ne-nil c word)
        (cc (words_go-solid word c s solid, e))
]

-- A text that ends in a byte other than white space has a word.
words_go-ne-nil : (s : Bytes) → EndsSolid s → words_go [] s ≢ []
words_go-ne-nil [] h e = absurd h
words_go-ne-nil (c ∷ s) h e = elim (Bool-cases (is_space c)) [
  | inl white ↦
      words_go-ne-nil s (EndsSolid-space c s white h) (cc (words_go-space [] c s white, e))
  | inr solid ↦ words_go-ne-nil_word (c ∷ []) s (λ p. cc p) (cc (words_go-solid [] c s solid, e))
]

join-cons : (w : Bytes) (ws : List Bytes) → ws ≢ [] → join (w ∷ ws) ≡ w ++ b' ' ∷ join ws
unfolding join
join-cons w [] h = absurd (h refl)
join-cons w (v ∷ ws) h = refl

join_one : (w : Bytes) → w ≢ [] → join (finish w []) ≡ w
unfolding join
join_one [] h = absurd (h refl)
join_one (c ∷ w) h = refl

ends_of : (c : ℕ) (s : Bytes) → (c ∷ s ≡ []) ⊎ EndsSolid (c ∷ s) → EndsSolid (c ∷ s)
ends_of c s (inl e) = absurd (cc e)
ends_of c s (inr h) = h

squeeze_nil : (prev : ℕ) (word : Bytes) → word ++ squeeze_go prev [] ≡ word
unfolding squeeze_go
squeeze_nil prev word = append-nil word

squeeze_nil_words : squeeze_go 0 [] ≡ join (words_go [] [])
unfolding squeeze_go join words_go
squeeze_nil_words = refl

squeeze_empty : ◌≡◌ {A = Bytes} [] (join (words_go [] []))
unfolding join words_go
squeeze_empty = refl

mutual
  -- The loop inside a word, and behind white space.
  squeeze_in_word :
      (s : Bytes) (prev : ℕ) (word : Bytes)
      → is_space prev ≡ false
      → word ≢ []
      → (s ≡ []) ⊎ EndsSolid s
      → word ++ squeeze_go prev s ≡ join (words_go word s)
  squeeze_in_word [] prev word hp ne h =
      squeeze_nil prev word ∙ sym (join_one word ne) ∙ ap join (sym (finish-nil word))
  squeeze_in_word (c ∷ s) prev word hp ne h = elim (Bool-cases (is_space c)) [
    | inl white ↦
        let e : EndsSolid s = EndsSolid-space c s white (ends_of c s h) in
        ap (λ t. word ++ t) (squeeze_go-first_space prev c s white hp)
        ∙ ap (λ t. word ++ b' ' ∷ t) (squeeze_after_space s c white e)
        ∙ sym (join-cons word (words_go [] s) (words_go-ne-nil s e))
        ∙ ap join (sym (words_go-space word c s white ∙ finish-ne-nil word (words_go [] s) ne))
    | inr solid ↦
        ap (λ t. word ++ t) (squeeze_go-solid prev c s solid)
        ∙ sym (append_assoc word (c ∷ []) (squeeze_go c s))
        ∙ squeeze_in_word s c (word ++ c ∷ []) solid (concat-ne-nil c word)
            (EndsSolid-tail c s (ends_of c s h))
        ∙ ap join (sym (words_go-solid word c s solid))
  ]

  squeeze_after_space :
      (s : Bytes) (prev : ℕ)
      → is_space prev ≡ true
      → EndsSolid s
      → squeeze_go prev s ≡ join (words_go [] s)
  squeeze_after_space [] prev hp h = absurd h
  squeeze_after_space (c ∷ s) prev hp h = elim (Bool-cases (is_space c)) [
    | inl white ↦
        squeeze_go-more_space prev c s white hp
        ∙ squeeze_after_space s c white (EndsSolid-space c s white h)
        ∙ ap join (sym (words_go-space [] c s white))
    | inr solid ↦
        squeeze_go-solid prev c s solid
        ∙ squeeze_in_word s c (c ∷ []) solid (λ p. cc p) (EndsSolid-tail c s h)
        ∙ ap join (sym (words_go-solid [] c s solid))
  ]

squeeze_trimmed :
    (t : Bytes) → (t ≡ []) ⊎ (StartsSolid t × EndsSolid t) → squeeze_go 0 t ≡ join (words_go [] t)
squeeze_trimmed [] h = squeeze_nil_words
squeeze_trimmed (c ∷ t) (inl e) = absurd (cc e)
squeeze_trimmed (c ∷ t) (inr (solid, ends)) =
    squeeze_go-solid 0 c t solid
    ∙ squeeze_in_word t c (c ∷ []) solid (λ p. cc p) (EndsSolid-tail c t ends)
    ∙ ap join (sym (words_go-solid [] c t solid))

-- `trimWhiteSpacesAndSqueezeInnerSpaces` returns the words of its argument, one space between two.
pub squeeze-join-words : (s : Bytes) → trim_white_spaces_and_squeeze_inner_spaces s ≡ join (words s)
unfolding trim_white_spaces_and_squeeze_inner_spaces words
squeeze-join-words [] = squeeze_empty
squeeze-join-words (c ∷ s) =
    let t : TrimOf (c ∷ s) (trim_white_spaces (c ∷ s)) = trim_white_spaces-TrimOf (c ∷ s) in
    squeeze_trimmed (trim_white_spaces (c ∷ s)) t.solid
    ∙ ap join (sym (words-TrimOf (c ∷ s) (trim_white_spaces (c ∷ s)) t))
