-- ===== src/Utf8/Tests.antt =====
-- The buffer on concrete bytes: the euro sign in two chunks, and a byte that cannot lead.
use mini_llm_runtime.Base.{ℕ, ◌≡◌, refl, true, false, List, [], ◌∷◌, ◌++◌}
use mini_llm_runtime.Utf8.{
  width, follows, follow_loop, is_valid, drain_step, drain_loop, drain, append, finish,
}
use mini_llm_runtime.Utf8.Stream.{feed, joined, finish-feed}
use mini_llm_runtime.Utf8.Output.{
  IsReleased, output-IsReleased, is_character, IsText, no_text, one_more,
}
use mini_llm_runtime.Utf8.Text.{text-unchanged}

abbrev two_chunks : List (List ℕ)
two_chunks = (65 ∷ 226 ∷ 130 ∷ []) ∷ (172 ∷ 255 ∷ []) ∷ []

append-first : append (65 ∷ 226 ∷ 130 ∷ []) [] ≡ (65 ∷ [], 226 ∷ 130 ∷ [])
unfolding append drain drain_loop drain_step is_valid follow_loop follows width
append-first = refl

append-second :
    append (172 ∷ 255 ∷ []) (226 ∷ 130 ∷ []) ≡ (226 ∷ 130 ∷ 172 ∷ 239 ∷ 191 ∷ 189 ∷ [], [])
unfolding append drain drain_loop drain_step is_valid follow_loop follows width
append-second = refl

finish-short : finish (226 ∷ 130 ∷ []) ≡ (239 ∷ 191 ∷ 189 ∷ [], [])
unfolding finish drain drain_loop drain_step is_valid follow_loop follows width
finish-short = refl

finish-feed_example :
    (feed two_chunks []).0 ++ (finish (feed two_chunks []).1).0 ≡ (finish (joined two_chunks)).0
finish-feed_example = finish-feed two_chunks

output-IsReleased_example :
    IsReleased false (append (172 ∷ 255 ∷ []) (226 ∷ 130 ∷ []))
    × IsReleased true (finish (226 ∷ 130 ∷ []))
output-IsReleased_example = output-IsReleased (172 ∷ 255 ∷ []) (226 ∷ 130 ∷ [])

euro-IsText : IsText (226 ∷ 130 ∷ 172 ∷ [])
unfolding is_character
euro-IsText = one_more (226 ∷ 130 ∷ 172 ∷ []) [] refl no_text

text-unchanged_example :
    (append (226 ∷ 130 ∷ 172 ∷ []) [] ≡ (226 ∷ 130 ∷ 172 ∷ [], []))
    × (finish (226 ∷ 130 ∷ 172 ∷ []) ≡ (226 ∷ 130 ∷ 172 ∷ [], []))
text-unchanged_example = text-unchanged (226 ∷ 130 ∷ 172 ∷ []) euro-IsText
