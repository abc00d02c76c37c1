-- ===== src/Detokenizer/Texts.antt =====
-- The texts that fastmoe/serve/detokenizer_manager.py sends.
use harvest_mo_e.Base.{
  ℕ, zero, suc, ◌≡◌, ◌⊎◌, inl, inr, refl, ap, Bool, true, List, [], ◌∷◌, Option, none, some, length,
  take, drop, ◌∙◌, arith, Bool-cases, Option-cases,
}
use harvest_mo_e.Base.Action.{ok}
use harvest_mo_e.Requests.Finishing.{BatchTokenIdOut}
use harvest_mo_e.Detokenizer.{
  Text, TextDecoder, BatchStrOut, startswith, space, word_mark, text_find, cut, spaced,
  finish_texts, handle_batch,
}

startswith-take :
    (n : ℕ) (text prefix : Text)
    → startswith (take n text) prefix ≡ true
    → startswith text prefix ≡ true
startswith-take n text [] h = refl
startswith-take zero text (c ∷ prefix) h = cc
startswith-take (suc n) [] (c ∷ prefix) h = cc
startswith-take (suc n) (b ∷ text) (c ∷ prefix) h = ground (arith, startswith-take n text prefix)

-- Before its first occurrence a stop string does not occur.
text_find-take :
    (text : Text) (c pos : ℕ) (stop : Text)
    → text_find text (c ∷ stop) ≡ some pos
    → text_find (take pos text) (c ∷ stop) ≡ none
unfolding text_find
text_find-take [] c pos stop h = cc
text_find-take (b ∷ text) c zero stop h = refl
text_find-take (b ∷ text) c (suc pos) stop h =
    ground (arith, startswith-take (suc pos) (b ∷ text) (c ∷ stop), text_find-take text c pos stop)

-- A stop string stands where it is found.
text_find-drop :
    (text sub : Text) (pos : ℕ)
    → text_find text sub ≡ some pos
    → startswith (drop pos text) sub ≡ true
unfolding text_find
text_find-drop [] sub zero h = ground (arith, Bool-cases (startswith [] sub))
text_find-drop [] sub (suc pos) h = ground arith
text_find-drop (b ∷ text) sub zero h = ground (arith, Bool-cases (startswith (b ∷ text) sub))
text_find-drop (b ∷ text) sub (suc pos) h = ground (arith, text_find-drop text sub pos)

-- What is left of a text: all of it without a stop string, nothing of it with the empty one, and
-- else a text without the stop string, all of it or what stands before the stop string.
abbrev pub IsCut : Option Text → (text cut_text : Text) → Type 0
IsCut none text cut_text = cut_text ≡ text
IsCut (some []) text cut_text = cut_text ≡ []
IsCut (some (c ∷ stop)) text cut_text =
    (text_find cut_text (c ∷ stop) ≡ none)
    × ((cut_text ≡ text)
        ⊎ ((n : ℕ) × (cut_text ≡ take n text) × (startswith (drop n text) (c ∷ stop) ≡ true)))

text_find-nil : (text : Text) → text_find text [] ≡ some 0
unfolding text_find
text_find-nil [] = refl
text_find-nil (b ∷ text) = refl

cut-IsCut : (stop : Option Text) (text : Text) → IsCut stop text (cut stop text)
cut-IsCut none text = refl
cut-IsCut (some []) text = rw (text_find-nil text, cut) refl
cut-IsCut (some (c ∷ stop)) text = elim (Option-cases (text_find text (c ∷ stop))) [
  | inl missing ↦
      let whole : cut (some (c ∷ stop)) text ≡ text = rw (missing, cut) refl in
      (ap (λ t. text_find t (c ∷ stop)) whole ∙ missing, inl whole)
  | inr (pos, at) ↦
      let front : cut (some (c ∷ stop)) text ≡ take pos text = rw (at, cut) refl in
      (
        ap (λ t. text_find t (c ∷ stop)) front ∙ text_find-take text c pos stop at,
        inr (pos, front, text_find-drop text (c ∷ stop) pos at),
      )
]

-- Each text is what is left of a decoded text, with at most a space in front of it.
abbrev pub FinishesTexts : List Text → List (Option Text) → List Text → Type 0
FinishesTexts [] stops outs = outs ≡ []
FinishesTexts (text ∷ texts) (stop ∷ stops) (out ∷ outs) =
    ((cut_text : Text) × IsCut stop text cut_text × ((out ≡ cut_text) ⊎ (out ≡ space ∷ cut_text)))
    × FinishesTexts texts stops outs
FinishesTexts (text ∷ texts) stops outs = ⊥

module _ (decoder : TextDecoder) where
  spaced-cases :
      (ids : List ℕ) (text : Text)
      → (spaced decoder ids text ≡ text) ⊎ (spaced decoder ids text ≡ space ∷ text)
  spaced-cases [] text = inl refl
  spaced-cases (token ∷ tokens) text =
      elim (Bool-cases (startswith (decoder.convert_ids_to_tokens token) (word_mark ∷ []))) [
        | inl begins ↦ inr (rw begins refl)
        | inr inside ↦ inl (rw inside refl)
      ]

  finish_texts_lem :
      (texts : List Text) (stops : List (Option Text)) (tokens : List (List ℕ))
      → length texts ≡ length stops
      → length texts ≡ length tokens
      → (outs : List Text) × (finish_texts decoder texts stops tokens ≡ ok outs)
        × (length outs ≡ length texts)
        × FinishesTexts texts stops outs
  unfolding finish_texts
  finish_texts_lem [] stops tokens h k = ([], refl, refl, refl)
  finish_texts_lem (text ∷ texts) [] tokens h k = absurd (omega arith)
  finish_texts_lem (text ∷ texts) (stop ∷ stops) [] h k = absurd (omega arith)
  finish_texts_lem (text ∷ texts) (stop ∷ stops) (ids ∷ tokens) h k =
      let (outs, e, size, all) = finish_texts_lem texts stops tokens (omega arith) (omega arith) in
      (
        spaced decoder ids (cut stop text) ∷ outs,
        rw e refl,
        omega (arith, size),
        ((cut stop text, cut-IsCut stop text, spaced-cases ids (cut stop text)), all),
      )

-- An answer for at least one request, with a stop string or none, a list of tokens and a flag for
-- each request: the requests keep their order and their finished flags, and each gets what is left
-- of its decoded tokens once the stop string is cut off, with at most a space in front.
pub handle_batch_lem :
    (decoder : TextDecoder) (stops : List (Option Text)) (out : BatchTokenIdOut) (skip : Bool)
    (skips : List Bool)
    → out.skip_special_tokens ≡ skip ∷ skips
    → length out.rids ≡ length out.output_tokens
    → length stops ≡ length out.output_tokens
    → (strs : BatchStrOut) × (handle_batch decoder stops out ≡ ok strs)
      × (strs.rids ≡ out.rids)
      × (strs.finished ≡ out.finished)
      × (length strs.output_str ≡ length strs.rids)
      × FinishesTexts (decoder.batch_decode out.output_tokens skip) stops strs.output_str
unfolding handle_batch
handle_batch_lem decoder stops out skip skips e h k =
    let texts = decoder.batch_decode out.output_tokens skip in
    let size = decoder.length-batch_decode out.output_tokens skip in
    let (outs, e', size', all) =
      finish_texts_lem decoder texts stops out.output_tokens (omega (arith, size)) size in
    (
      record {
        rids = out.rids;
        output_str = outs;
        prompt_tokens = out.prompt_tokens;
        completion_tokens = out.completion_tokens;
        finished = out.finished;
      },
      ground (arith, e, e'),
      refl,
      refl,
      omega (arith, size, size'),
      all,
    )
