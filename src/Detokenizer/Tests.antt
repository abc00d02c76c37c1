-- ===== src/Detokenizer/Tests.antt =====
-- An answer for two requests, with a decoder that takes a token for a code point.
use harvest_mo_e.Base.{
  ℕ, ◌≡◌, refl, Bool, true, false, List, [], ◌∷◌, Option, none, some, length, ◌==◌, if◌then◌else◌,
}
use harvest_mo_e.Base.Action.{ok}
use harvest_mo_e.Requests.Finishing.{BatchTokenIdOut}
use harvest_mo_e.Detokenizer.{
  Text, TextDecoder, BatchStrOut, word_mark, space, text_find, handle_batch,
}
use harvest_mo_e.Detokenizer.Texts.{FinishesTexts, handle_batch_lem}

same_length : (tokens : List (List ℕ)) (skip : Bool) → length tokens ≡ length tokens
same_length tokens skip = refl

-- The token 104 begins a word.
abbrev decoder : TextDecoder
decoder = record {
  batch_decode = λ tokens skip. tokens;
  convert_ids_to_tokens = λ token. if token == 104 then word_mark ∷ token ∷ [] else token ∷ [];
  length-batch_decode = same_length;
}

abbrev answer : BatchTokenIdOut
answer = record {
  rids = 7 ∷ 8 ∷ [];
  output_tokens = (104 ∷ 105 ∷ 33 ∷ 63 ∷ []) ∷ (5 ∷ []) ∷ [];
  skip_special_tokens = true ∷ false ∷ [];
  prompt_tokens = 3 ∷ 4 ∷ [];
  completion_tokens = 4 ∷ 1 ∷ [];
  finished = true ∷ true ∷ [];
}

abbrev stops : List (Option Text)
stops = some (33 ∷ 63 ∷ []) ∷ none ∷ []

texts :
    handle_batch decoder stops answer
    ≡ ok (record {
      rids = 7 ∷ 8 ∷ [];
      output_str = (space ∷ 104 ∷ 105 ∷ []) ∷ (5 ∷ []) ∷ [];
      prompt_tokens = 3 ∷ 4 ∷ [];
      completion_tokens = 4 ∷ 1 ∷ [];
      finished = true ∷ true ∷ [];
    })
unfolding handle_batch text_find
texts = refl

handle_batch_lem_example :
    (strs : BatchStrOut) × (handle_batch decoder stops answer ≡ ok strs)
    × (strs.rids ≡ answer.rids)
    × (strs.finished ≡ answer.finished)
    × (length strs.output_str ≡ length strs.rids)
    × FinishesTexts (decoder.batch_decode answer.output_tokens true) stops strs.output_str
handle_batch_lem_example = handle_batch_lem decoder stops answer true (false ∷ []) refl refl refl
