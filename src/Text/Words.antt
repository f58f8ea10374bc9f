-- ===== src/Text/Words.antt =====
-- Extraction with `>>` from a `std::istringstream`: the words between white space.
use sysal.Prelude.{
  if◌then◌else◌, All, Bytes, ℕ, ◌≡◌, refl, ap, ◌∙◌, ◌≢◌, false, List, [], ◌∷◌, ◌++◌, append-nil,
  append_assoc,
}
use sysal.Text.{is_space}
use sysal.Text.Split.{join}

-- the word under construction, and the rest
unfoldable pub words_loop : Bytes → Bytes → List Bytes
words_loop [] [] = []
words_loop (w ∷ ws) [] = (w ∷ ws) ∷ []
words_loop [] (c ∷ s) =
    let skip = words_loop [] s in
    let grow = words_loop (c ∷ []) s in if is_space c then skip else grow
words_loop (w ∷ ws) (c ∷ s) =
    let stop = words_loop [] s in
    let grow = words_loop ((w ∷ ws) ++ c ∷ []) s in if is_space c then (w ∷ ws) ∷ stop else grow

unfoldable pub words : Bytes → List Bytes
words = words_loop []

-- neither empty nor with white space
abbrev pub IsWord : Bytes → Type 0
IsWord w = (w ≢ []) × All (λ c. is_space c ≡ false) w

words_loop-end :
    (a : ℕ) (w s : Bytes)
    → All (λ c. is_space c ≡ false) s
    → words_loop (a ∷ w) s ≡ ((a ∷ w) ++ s) ∷ []
unfolding words_loop
words_loop-end a w [] h = rw (append-nil w) refl
words_loop-end a w (c ∷ s) (hc, h) =
    rw hc (words_loop-end a (w ++ c ∷ []) s h ∙ ap (λ k. (a ∷ k) ∷ []) (append_assoc w (c ∷ []) s))

words_loop-space :
    (a : ℕ) (w s rest : Bytes)
    → All (λ c. is_space c ≡ false) s
    → words_loop (a ∷ w) (s ++ b' ' ∷ rest) ≡ ((a ∷ w) ++ s) ∷ words rest
unfolding words_loop words is_space
words_loop-space a w [] rest h = rw (append-nil w) refl
words_loop-space a w (c ∷ s) rest (hc, h) = rw hc (
    words_loop-space a (w ++ c ∷ []) s rest h
    ∙ ap (λ k. (a ∷ k) ∷ words rest) (append_assoc w (c ∷ []) s))

words_one : (w : Bytes) → IsWord w → words w ≡ w ∷ []
unfolding words words_loop
words_one [] (ne, h) = absurd (ne refl)
words_one (c ∷ w) (ne, (hc, h)) = rw hc (words_loop-end c [] w h)

words_cons : (w rest : Bytes) → IsWord w → words (w ++ b' ' ∷ rest) ≡ w ∷ words rest
unfolding words words_loop
words_cons [] rest (ne, h) = absurd (ne refl)
words_cons (c ∷ w) rest (ne, (hc, h)) = rw hc (words_loop-space c [] w rest h)

-- Words joined by single spaces are found again.
pub words-join : (ws : List Bytes) → All IsWord ws → words (join ws b' ') ≡ ws
unfolding join
words-join [] h = unfold words words_loop in refl
words-join (w ∷ []) (hw, h) = words_one w hw
words-join (w ∷ v ∷ ws) (hw, h) =
    words_cons w (join (v ∷ ws) b' ') hw ∙ ap (λ k. w ∷ k) (words-join (v ∷ ws) h)
