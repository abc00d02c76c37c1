-- ===== src/Schedule/Forward.antt =====
-- What `batch_forward_step` calls for one micro-batch, from the prefill to the last decode step.
use mathlib.Core.List.{append-nil}
use native.Mathlib.Decide.{ℕ_discrete}
use native.Mathlib.Nat.{mod-eq_of_lt}
use harvest_mo_e.Base.{
  ℕ, ◌+◌, ◌%◌, ◌-◌, ◌≤◌, ◌<◌, ◌≡◌, ap, ◌∙◌, List, [], ◌∷◌, ◌++◌, ◌==◌, if◌then◌else◌, arith, ltb,
  Bool-cases, inl, inr,
}
use harvest_mo_e.Schedule.{
  Shape, Call, layer, offload_kv_cache, offload_hidden_prefill, load_hidden_prefill, for_range,
  prefill_batch, prefetch_next, prefill_page, prefill_calls, decode_calls, forward_calls,
  num_decode_steps,
}
use harvest_mo_e.Schedule.Loops.{only, only-append, only-for_range, for_range-same, for_range-two}
use harvest_mo_e.Schedule.Decode.{
  of_batch, one_page, mod_wrap, sequential_decode, decode_calls-only,
}

-- A page of a layer for a micro-batch on its own. Behind its computation the keys and values of the
-- layer are moved, if the page is the first one, and then the hidden states of the micro-batch; these
-- are loaded again before its next page. That load is called behind the micro-batch that runs before
-- it, so that there is one before the first page too, except for micro-batch 0.
abbrev work_of : (i k j : ℕ) → List Call
work_of i k j =
    layer i j k ∷ (if j == 0 then offload_kv_cache i k ∷ [] else [])
    ++ offload_hidden_prefill k ∷ []

abbrev page_of : (i k j : ℕ) → List Call
page_of i k j =
    (if k == 0 then [] else load_hidden_prefill k ∷ [])
    ++ work_of i k j
    ++ (if k == 0 then load_hidden_prefill k ∷ [] else [])

-- The prefill of a micro-batch on its own: its layers in their order, and the pages of a layer in
-- theirs.

unfoldable pub sequential_prefill : (num_layers num_pages k : ℕ) → List Call
unfolding for_range
sequential_prefill num_layers num_pages k =
    for_range 0 num_layers (λ i. for_range 0 num_pages (page_of i k))

module _ (shape : Shape) (b : ℕ) (many : 2 ≤ shape.num_mb) (u : b < shape.num_mb) where
  only-prefill_batch :
      (i j k : ℕ)
      → only (of_batch b) (prefill_batch shape i j k)
        ≡ (if k == b then work_of i b j else [])
          ++ (if (k + 1) % shape.num_mb == b then load_hidden_prefill b ∷ [] else [])
  unfolding only of_batch prefill_batch
  only-prefill_batch i j k = ground arith

  -- The micro-batch whose hidden states a round loads.
  next-round :
      (k : ℕ)
      → k < shape.num_mb
      → (k + 1) % shape.num_mb ≡ (if ltb (k + 1) shape.num_mb then k + 1 else 0)
  next-round k below = elim (Bool-cases (ltb (k + 1) shape.num_mb)) [
    | inl near ↦
        ground (arith, near, mod-eq_of_lt {n = k + 1} {m = shape.num_mb} (ground (arith, near)))
    | inr far ↦
        let wrap = mod_wrap (k + 1) shape.num_mb (ground (arith, far)) (omega arith) in
        ground (arith, far, wrap)
  ]

  -- The rounds of a page for micro-batch `b`: its own, and the one before it, which loads.
  only-rounds :
      (i j : ℕ)
      → for_range 0 shape.num_mb (λ k. only (of_batch b) (prefill_batch shape i j k))
        ≡ page_of i b j
  only-rounds i j = elim (ℕ_discrete b 0) [
    | yes first ↦
        for_range-two 0 shape.num_mb 0 (shape.num_mb - 1)
          (λ k. only (of_batch b) (prefill_batch shape i j k)) (omega arith) (omega arith)
          (omega arith)
          (λ k l' u' d d'.
            ground (arith, only-prefill_batch i j k, next-round k (omega arith), first, d, d'))
        ∙ ground (
          arith,
          first,
          only-prefill_batch i j 0,
          next-round 0 (omega arith),
          only-prefill_batch i j (shape.num_mb - 1),
          next-round (shape.num_mb - 1) (omega arith),
          append-nil (work_of i b j),
        )
    | no later ↦
        for_range-two 0 shape.num_mb (b - 1) b (λ k. only (of_batch b) (prefill_batch shape i j k))
          (omega arith) (ground (arith, later)) (omega arith)
          (λ k l' u' d d'.
            ground (arith, only-prefill_batch i j k, next-round k (omega arith), later, d, d'))
        ∙ ground (
          arith,
          later,
          only-prefill_batch i j (b - 1),
          next-round (b - 1) (omega arith),
          only-prefill_batch i j b,
          next-round b (omega arith),
          append-nil (work_of i b j),
        )
  ]

  only-prefetch_next : (i j : ℕ) → only (of_batch b) (prefetch_next shape i j ∷ []) ≡ []
  unfolding only of_batch prefetch_next
  only-prefetch_next i j = ground arith

  only-prefill_page : (i j : ℕ) → only (of_batch b) (prefill_page shape i j) ≡ page_of i b j
  unfolding prefill_page
  only-prefill_page i j =
      let rounds = for_range 0 shape.num_mb (prefill_batch shape i j) in
      let split = only-append (of_batch b) rounds (prefetch_next shape i j ∷ []) in
      let own : only (of_batch b) rounds ≡ page_of i b j =
        only-for_range (of_batch b) 0 shape.num_mb (prefill_batch shape i j) ∙ only-rounds i j in
      let last = only-prefetch_next i j in
      ground (arith, split, own, last, append-nil (page_of i b j))

  only-prefill_calls :
      only (of_batch b) (prefill_calls shape)
      ≡ sequential_prefill shape.num_layers shape.num_pages b
  unfolding prefill_calls sequential_prefill only of_batch
  only-prefill_calls =
      only-for_range (of_batch b) 0 shape.num_layers
        (λ i. for_range 0 shape.num_pages (prefill_page shape i))
      ∙ for_range-same 0 shape.num_layers
          (λ i. only (of_batch b) (for_range 0 shape.num_pages (prefill_page shape i)))
          (λ i. for_range 0 shape.num_pages (page_of i b))
          (λ i l' u'.
            only-for_range (of_batch b) 0 shape.num_pages (prefill_page shape i)
            ∙ for_range-same 0 shape.num_pages (λ j. only (of_batch b) (prefill_page shape i j))
                (page_of i b) (λ j l u. only-prefill_page i j))

-- With more than two micro-batches, at least one layer, and the experts of a layer in one page,
-- the calls of `batch_forward_step` for any micro-batch, that is all but the prefetches of weights
-- and the call that prepares a decode step, are those of the micro-batch on its own: its prefill,
-- layer by layer, with the move of the keys and values of each layer and the moves of the hidden
-- states around it, and then as many sequential decode steps as there are tokens to generate but
-- one. In such a step each layer is the three calls of its attention, in their order, and then the
-- load of the hidden states and the rest of the layer.
pub forward_calls-only :
    (num_layers gen_len num_mb b : ℕ)
    → 1 ≤ num_layers
    → 2 < num_mb
    → b < num_mb
    → only (of_batch b) (forward_calls (one_page num_layers gen_len num_mb))
      ≡ sequential_prefill num_layers 1 b
        ++ for_range 0 (gen_len - 1) (λ step. sequential_decode num_layers b)
unfolding forward_calls
forward_calls-only L g n b some_layer many u =
    let shape = one_page L g n in
    let steps : num_decode_steps shape ≡ g - 1 = ground (arith, many) in
    let decode =
      only-for_range (of_batch b) 0 (num_decode_steps shape) (λ step. decode_calls shape)
      ∙ for_range-same 0 (num_decode_steps shape) (λ step. only (of_batch b) (decode_calls shape))
          (λ step. sequential_decode L b)
          (λ i l' u'. decode_calls-only L g n b some_layer many u) in
    let split =
      only-append (of_batch b) (prefill_calls shape)
        (for_range 0 (num_decode_steps shape) (λ step. decode_calls shape)) in
    split
    ∙ ap
        (λ calls.
          calls
          ++ only (of_batch b) (for_range 0 (num_decode_steps shape) (λ step. decode_calls shape)))
        (only-prefill_calls shape b (omega (arith, many)) u)
    ∙ ap (λ calls. sequential_prefill L 1 b ++ calls) decode
    ∙ ap (λ m. sequential_prefill L 1 b ++ for_range 0 m (λ step. sequential_decode L b)) steps
