-- ===== src/Schedule/Tests.antt =====
-- The order of the calls on small models.
use harvest_mo_e.Base.{◌≡◌, refl, some, [], ◌∷◌, ◌++◌, arith}
use harvest_mo_e.Schedule.{
  for_range, attention, forward_calls, decode_calls, get_prefetch_e2p_idx, load_hidden,
  post_attention,
}
use harvest_mo_e.Schedule.Loops.{only}
use harvest_mo_e.Schedule.Decode.{of_batch, one_page, sequential_decode, rest_of_layer}
use harvest_mo_e.Schedule.Forward.{sequential_prefill, forward_calls-only}
use harvest_mo_e.Schedule.Pins.{pin_calls, decode_calls-pins}
use harvest_mo_e.Schedule.Two.{decode_calls-two}

-- Micro-batch 2 of 3 in the last layer but one: the next slot is that of the next layer but one.
next_slot : get_prefetch_e2p_idx (one_page 4 8 3) 1 0 2 ≡ some (3, 1)
unfolding get_prefetch_e2p_idx
next_slot = refl

decode_example :
    sequential_decode 2 0
    ≡ attention 0 0
      ++ (load_hidden 0 0 ∷ post_attention 0 0 0 ∷ [])
      ++ attention 1 0
      ++ (load_hidden 1 0 ∷ post_attention 1 0 0 ∷ [])
unfolding sequential_decode for_range
decode_example = refl

forward_calls-only_example :
    only (of_batch 1) (forward_calls (one_page 2 3 3))
    ≡ sequential_prefill 2 1 1 ++ for_range 0 2 (λ step. sequential_decode 2 1)
forward_calls-only_example = forward_calls-only 2 3 3 1 (omega arith) (omega arith) (omega arith)

decode_calls-pins_example : pin_calls (decode_calls (one_page 2 3 2)) [] ≡ some []
decode_calls-pins_example = decode_calls-pins 2 3 2 (omega arith) (omega arith)

decode_calls-two_example :
    only (of_batch 1) (decode_calls (one_page 2 3 2))
    ≡ attention 0 1 ++ for_range 0 2 (λ i. rest_of_layer i 1)
decode_calls-two_example = decode_calls-two 2 3 1 (omega arith)
