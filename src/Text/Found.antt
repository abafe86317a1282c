-- ===== src/Text/Found.antt =====
-- textobj.cxx: `search` on a context from the constructor.
use post.Prelude.{ℕ, false, Option, List, [], ◌∷◌, if◌then◌else◌, drop}
use post.Text.{Bytes, SearchCtx, same_char, upwards, downwards, Answer, any_bit, max_patterns}
use post.Text.Reference.{tries, test_one, test_all}
use post.Text.Search.{placed}

-- the reference search that belongs to a context: with one pattern, or in the order of the masks
abbrev pub reference_patterns : (ℕ → ℕ) → SearchCtx → Bytes → List Bytes → Option ℕ
reference_patterns upper ctx s [] =
    tries (test_all upper ctx.exact_mask ctx.and_mask []) s 0 (λ k. false)
reference_patterns upper ctx s (p ∷ []) =
    tries (test_one (same_char upper (ctx.exact_mask 0)) p) s 0 tt
reference_patterns upper ctx s (p ∷ q ∷ ps) =
    let order =
      if any_bit max_patterns ctx.exact_mask
      then upwards 0 (p ∷ q ∷ ps)
      else downwards 0 (p ∷ q ∷ ps) in
    tries (test_all upper ctx.exact_mask ctx.and_mask order) s 0 (λ k. false)

abbrev pub reference_search : (ℕ → ℕ) → SearchCtx → Bytes → Answer
reference_search upper ctx p_text =
    let s = drop ctx.start p_text in
    placed upper ctx s (reference_patterns upper ctx s ctx.patterns)
