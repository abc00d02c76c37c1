-- ===== src/Schedule/Pins.antt =====
-- The pinned slots of a decode step: `prefetch_experts_to_pin` of fastmoe/backend/execution_engine.py
-- starts a copy to a slot, and `prefetch_experts` waits for the copy and moves the rows of the slot on
-- to the GPU. This file is about the arguments of these calls, a layer and a slot. Which rows a copy
-- takes is not part of it: `prefetch_experts_to_pin_func` does not read the layer.
use mathlib.Core.List.{append-nil}
use native.Mathlib.Nat.{mod-eq_of_lt}
use harvest_mo_e.Base.{
  ℕ, zero, suc, ◌+◌, ◌-◌, ◌%◌, ◌≤◌, ◌<◌, ◌≡◌, ap, ◌∙◌, List, [], ◌∷◌, ◌++◌, Option, none, some, ltb,
  ◌==◌, if◌then◌else◌, arith, Bool-cases, Option-cases, inl, inr,
}
use harvest_mo_e.Base.Dict.{Dict, lookup, insert, erase}
use harvest_mo_e.Schedule.{
  Shape, Call, prefetch_experts_decode, prefetch_experts_to_pin, for_range, attention_ahead,
  decode_first, decode_layer, decode_calls, prologue, to_pin, get_prefetch_e2p_idx,
}
use harvest_mo_e.Schedule.Decode.{mod_wrap, one_page}

-- The slots with a copy that was not moved on yet, each with the layer that the call for the copy
-- named. A further copy to such a slot is refused, and so are a prefetch from a slot without a copy,
-- which would find no new rows there, and one that names another layer than the copy.
unfoldable pub pin_call : Call → Dict ℕ → Option (Dict ℕ)
pin_call (prefetch_experts_to_pin layer_id slot_id) pins = elim (lookup slot_id pins) [
  | none ↦ some (insert slot_id layer_id pins)
  | some other ↦ none
]
pin_call (prefetch_experts_decode layer_id page_id slot_id) pins = elim (lookup slot_id pins) [
  | none ↦ none
  | some held ↦ if held == layer_id then some (erase slot_id pins) else none
]
pin_call _ pins = some pins

unfoldable pub pin_calls : List Call → Dict ℕ → Option (Dict ℕ)
unfolding pin_call
pin_calls [] pins = some pins
pin_calls (call ∷ calls) pins = elim (pin_call call pins) [
  | none ↦ none
  | some pins' ↦ pin_calls calls pins'
]

pin_calls-append :
    (xs ys : List Call) (pins pins' : Dict ℕ)
    → pin_calls xs pins ≡ some pins'
    → pin_calls (xs ++ ys) pins ≡ pin_calls ys pins'
unfolding pin_calls
pin_calls-append [] ys pins pins' e = ground (arith, e)
pin_calls-append (x ∷ xs) ys pins pins' e = elim (Option-cases (pin_call x pins)) [
  | inl stuck ↦ ground (arith, e, stuck)
  | inr (p, step) ↦ ground (arith, e, step, pin_calls-append xs ys p pins')
]

pin_calls-attention_ahead :
    (shape : Shape) (i k : ℕ) (pins : Dict ℕ)
    → pin_calls (attention_ahead shape i k) pins ≡ some pins
unfolding pin_calls pin_call attention_ahead
pin_calls-attention_ahead shape i k pins = ground arith

module _ (L g n : ℕ) (some_layers : 2 ≤ L) (some_batches : 2 ≤ n) where
  abbrev shape : Shape
  shape = one_page L g n

  -- The copies before micro-batch `k` of layer `i`: its own one and the next one.
  abbrev held : (i k : ℕ) → Dict ℕ
  held i k =
      (k, (i + 1) % L)
      ∷ (if ltb (k + 1) n
          then (k + 1, (i + 1) % L) ∷ []
          else (if ltb (i + 1) L then (0, (i + 2) % L) ∷ [] else []))

  -- The copies before layer `i`.
  abbrev held_before : ℕ → Dict ℕ
  held_before i = if ltb i L then held i 0 else []

  round_start :
      (i k : ℕ) (pins : Dict ℕ)
      → pin_calls (decode_first shape i k) ((k, (i + 1) % L) ∷ pins)
        ≡ pin_calls (to_pin (get_prefetch_e2p_idx shape i 0 k)) pins
  unfolding decode_first pin_calls pin_call
  round_start i k pins =
      let ahead =
        pin_calls-append (attention_ahead shape i k) (to_pin (get_prefetch_e2p_idx shape i 0 k))
          pins pins (pin_calls-attention_ahead shape i k pins) in
      ground (arith, ahead)

  round_run :
      (i k : ℕ)
      → i < L
      → k < n
      → pin_calls (decode_first shape i k) (held i k)
        ≡ some (if ltb (k + 1) n then held i (k + 1) else held_before (i + 1))
  unfolding get_prefetch_e2p_idx pin_calls pin_call
  round_run i k u v =
      let same : (i + 1 + 1) % L ≡ (i + 2) % L = ap (λ m. m % L) (omega arith) in
      elim (Bool-cases (ltb (k + 2) n)) [
        | inl near ↦ ground (arith, near, round_start i k ((k + 1, (i + 1) % L) ∷ []))
        | inr far ↦
            let wrap = mod_wrap (k + 2) n (ground (arith, far)) (omega arith) in
            elim (Bool-cases (ltb (k + 1) n)) [
              | inl near ↦
                  ground (arith, near, far, wrap, same, round_start i k ((k + 1, (i + 1) % L) ∷ []))
              | inr last ↦ ground (
                arith,
                last,
                far,
                wrap,
                same,
                round_start i k (if ltb (i + 1) L then (0, (i + 2) % L) ∷ [] else []),
              )
            ]
      ]

  rounds_run :
      (i k m : ℕ)
      → i < L
      → k + suc m ≡ n
      → pin_calls (for_range k (suc m) (decode_first shape i)) (held i k)
        ≡ some (held_before (i + 1))
  unfolding for_range
  rounds_run i k zero u e =
      let run = round_run i k u (omega arith) in
      ground (arith, e, append-nil (decode_first shape i k), run)
  rounds_run i k (suc m) u e =
      let next : k + 1 ≡ suc k = omega arith in
      let more : pin_calls (decode_first shape i k) (held i k) ≡ some (held i (suc k)) =
        ground (arith, e, round_run i k u (omega arith), ap (held i) next) in
      pin_calls-append (decode_first shape i k) (for_range (suc k) (suc m) (decode_first shape i))
        (held i k) (held i (suc k)) more
      ∙ rounds_run i (suc k) m u (omega arith)

  layer_run :
      (i : ℕ) → i < L → pin_calls (decode_layer shape i) (held i 0) ≡ some (held_before (i + 1))
  unfolding decode_layer
  layer_run i u =
      let all : suc (n - 1) ≡ n = omega arith in
      let run = rounds_run i 0 (n - 1) u (omega arith) in
      ground (arith, append-nil (for_range 0 n (decode_first shape i)), all, run)

  layers_run :
      (i m : ℕ)
      → i + m ≡ L
      → pin_calls (for_range i m (decode_layer shape)) (held_before i) ≡ some []
  unfolding for_range pin_calls
  layers_run i zero e = ground (arith, e)
  layers_run i (suc m) e =
      let here : held_before i ≡ held i 0 = ground (arith, e) in
      let next : i + 1 ≡ suc i = omega arith in
      let first : pin_calls (decode_layer shape i) (held_before i) ≡ some (held_before (suc i)) =
        ground (arith, here, layer_run i (omega arith), ap held_before next) in
      pin_calls-append (decode_layer shape i) (for_range (suc i) m (decode_layer shape))
        (held_before i) (held_before (suc i)) first
      ∙ layers_run (suc i) m (omega arith)

  prologue_run : pin_calls (for_range 0 2 (prologue shape)) [] ≡ some (held_before 0)
  unfolding for_range prologue pin_calls pin_call
  prologue_run = ground (arith, mod-eq_of_lt {n = 1} {m = L} some_layers)

-- In a decode step with at least two layers and two micro-batches, and the experts of a layer in one
-- page, the calls for copies and prefetches match: every copy is called for a slot in which no
-- earlier copy waits, every prefetch is called for a slot in which a copy waits that was called for
-- the same layer, and no copy waits at the end. This says which layer the calls name, and not whose
-- weights the copies take.
pub decode_calls-pins :
    (num_layers gen_len num_mb : ℕ)
    → 2 ≤ num_layers
    → 2 ≤ num_mb
    → pin_calls (decode_calls (one_page num_layers gen_len num_mb)) [] ≡ some []
unfolding decode_calls pin_calls pin_call
decode_calls-pins L g n h h' =
    let two : (if ltb 2 n then 2 else n) ≡ 2 = ground (arith, h') in
    let start =
      pin_calls-append (for_range 0 2 (prologue (shape L g n h h')))
        (for_range 0 L (decode_layer (shape L g n h h'))) [] (held_before L g n h h' 0)
        (prologue_run L g n h h') in
    rw two (start ∙ layers_run L g n h h' 0 L (omega arith))
