-- ===== src/Detokenizer.antt =====
-- `DetokenizerManager.handle_loop` of fastmoe/serve/detokenizer_manager.py: the texts of an answer of
-- the server. A text is the list of its code points. The tokenizer is a parameter.
pub mod Texts
mod Tests
use harvest_mo_e.Base.{
  ℕ, zero, suc, Bool, true, false, ◌&&◌, List, [], ◌∷◌, Option, none, some, ltb, ◌==◌,
  if◌then◌else◌, length, take, get_elem?, ◌≡◌,
}
use harvest_mo_e.Base.Action.{Error, Result, ok, raise, blocked}
use harvest_mo_e.Requests.Finishing.{BatchTokenIdOut}

abbrev pub Text : Type 0
Text = List ℕ

-- `batch_decode` with its flag `skip_special_tokens`, and `convert_ids_to_tokens` of one token as a
-- text. A batch has a text for each of its lists of tokens.
pub record TextDecoder : Type 0 where
  pub batch_decode : List (List ℕ) → Bool → List Text
  pub convert_ids_to_tokens : ℕ → Text
  pub length-batch_decode :
      (tokens : List (List ℕ)) (skip : Bool) → length (batch_decode tokens skip) ≡ length tokens

pub record BatchStrOut : Type 0 where
  pub rids : List ℕ
  pub output_str : List Text
  pub prompt_tokens : List ℕ
  pub completion_tokens : List ℕ
  pub finished : List Bool

-- `text.startswith(prefix)`
abbrev pub startswith : Text → Text → Bool
startswith text [] = true
startswith [] (c ∷ prefix) = false
startswith (b ∷ text) (c ∷ prefix) = b == c && startswith text prefix

-- `text.find(sub)`: the place of the first occurrence, where Python returns -1 for none.
unfoldable pub text_find : Text → Text → Option ℕ
text_find [] sub = if startswith [] sub then some 0 else none
text_find (b ∷ text) sub =
    let rest = text_find text sub in
    if startswith (b ∷ text) sub
    then some 0
    else elim rest [ none ↦ none | some pos ↦ some (suc pos) ]

-- The text before the stop string.
abbrev pub cut : Option Text → Text → Text
cut none text = text
cut (some stop) text = elim (text_find text stop) [ none ↦ text | some pos ↦ take pos text ]

-- The code points of "▁" and of a space.
abbrev pub word_mark : ℕ
word_mark = 9601

abbrev pub space : ℕ
space = 32

module _ (decoder : TextDecoder) where
  -- A space in front of a text whose first token begins a word.
  abbrev pub spaced : List ℕ → Text → Text
  spaced [] text = text
  spaced (token ∷ tokens) text =
      if startswith (decoder.convert_ids_to_tokens token) (word_mark ∷ [])
      then space ∷ text
      else text

  -- The loop over the texts. A list that is too short raises an IndexError.
  unfoldable pub finish_texts : List Text → List (Option Text) → List (List ℕ) → Result (List Text)
  finish_texts [] stops tokens = ok []
  finish_texts (text ∷ texts) [] tokens = raise Error.index_error
  finish_texts (text ∷ texts) (stop ∷ stops) [] = raise Error.index_error
  finish_texts (text ∷ texts) (stop ∷ stops) (ids ∷ tokens) =
      elim (finish_texts texts stops tokens) [
        | ok rest ↦ ok (spaced ids (cut stop text) ∷ rest)
        | raise e ↦ raise e
        | blocked ↦ blocked
      ]

  -- One answer. The flag of the first request holds for all of them.
  unfoldable pub handle_batch : List (Option Text) → BatchTokenIdOut → Result BatchStrOut
  unfolding finish_texts
  handle_batch hit_stop_str out = elim out.skip_special_tokens [
    | [] ↦ raise Error.index_error
    | skip ∷ _ ↦
        elim (finish_texts (decoder.batch_decode out.output_tokens skip) hit_stop_str
          out.output_tokens) [
            | raise e ↦ raise e
            | blocked ↦ blocked
            | ok output_str ↦ ok (record {
              rids = out.rids;
              output_str = output_str;
              prompt_tokens = out.prompt_tokens;
              completion_tokens = out.completion_tokens;
              finished = out.finished;
            })
          ]
  ]
