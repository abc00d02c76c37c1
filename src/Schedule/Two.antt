-- ===== src/Schedule/Two.antt =====
-- A decode step with exactly two micro-batches: `attention_ahead` leaves them out.
use mathlib.Core.List.{append-nil}
use harvest_mo_e.Base.{ℕ, ◌<◌, ◌≡◌, ap, ◌∙◌, ◌++◌, arith}
use harvest_mo_e.Schedule.{
  for_range, attention, attention_ahead, decode_first, decode_layer, decode_calls, prologue,
}
use harvest_mo_e.Schedule.Loops.{only, only-append, only-for_range, for_range-same}
use harvest_mo_e.Schedule.Decode.{of_batch, one_page, rest_of_layer, only-decode_first}

module _ (L g b : ℕ) (u : b < 2) where
  two_rounds :
      (i : ℕ)
      → only (of_batch b) (for_range 0 2 (decode_first (one_page L g 2) i)) ≡ rest_of_layer i b
  unfolding for_range attention_ahead only
  two_rounds i =
      let split = only-for_range (of_batch b) 0 2 (decode_first (one_page L g 2) i) in
      ground (arith, split, only-decode_first L g 2 i 0 b, only-decode_first L g 2 i 1 b)

  layer_two : (i : ℕ) → only (of_batch b) (decode_layer (one_page L g 2) i) ≡ rest_of_layer i b
  unfolding decode_layer
  layer_two i =
      ap (only (of_batch b)) (append-nil (for_range 0 2 (decode_first (one_page L g 2) i)))
      ∙ two_rounds i

  prologue_two : only (of_batch b) (for_range 0 2 (prologue (one_page L g 2))) ≡ attention 0 b
  unfolding only of_batch for_range prologue
  prologue_two = ground arith

-- With exactly two micro-batches, and the experts of a layer in one page, a decode step computes the
-- attention of the first layer alone: every later layer uses hidden states without attention.
pub decode_calls-two :
    (num_layers gen_len b : ℕ)
    → b < 2
    → only (of_batch b) (decode_calls (one_page num_layers gen_len 2))
      ≡ attention 0 b ++ for_range 0 num_layers (λ i. rest_of_layer i b)
unfolding decode_calls only of_batch
decode_calls-two L g b u =
    let layers =
      for_range-same 0 L (λ i. only (of_batch b) (decode_layer (one_page L g 2) i))
        (λ i. rest_of_layer i b) (λ i l' u'. layer_two L g b u i) in
    only-append (of_batch b) (for_range 0 2 (prologue (one_page L g 2)))
      (for_range 0 L (decode_layer (one_page L g 2)))
    ∙ ap (λ calls. calls ++ only (of_batch b) (for_range 0 L (decode_layer (one_page L g 2))))
        (prologue_two L g b u)
    ∙ ap (λ calls. attention 0 b ++ calls)
        (only-for_range (of_batch b) 0 L (decode_layer (one_page L g 2)) ∙ layers)
