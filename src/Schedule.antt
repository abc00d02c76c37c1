-- ===== src/Schedule.antt =====
-- The order of the calls on the engine in `batch_forward_step` of
-- fastmoe/serve/router/model_rpc.py. The order depends on four numbers alone, so that a step is the
-- list of its calls; every loop over a range is `for_range`.
pub mod Loops
pub mod Decode
pub mod Forward
pub mod Pins
pub mod Two
mod Tests
use harvest_mo_e.Base.{
  ℕ, zero, suc, ◌+◌, ◌-◌, ◌%◌, Bool, true, false, ◌&&◌, List, [], ◌∷◌, ◌++◌, Option, none, some,
  ltb, leb, ◌==◌, if◌then◌else◌, map,
}

-- What the order depends on: the layers of the model, the pages of the experts of a layer on the
-- CPU (at least one), the tokens to generate, and the number of micro-batches.
pub record Shape : Type 0 where
  pub num_layers : ℕ
  pub num_pages : ℕ
  pub gen_len : ℕ
  pub num_mb : ℕ

-- The calls on the engine. A layer, a page and a micro-batch or slot, in this order.
pub data Call : Type 0 where
  layer : ℕ → ℕ → ℕ → Call
  offload_kv_cache : ℕ → ℕ → Call
  offload_hidden_prefill : ℕ → Call
  load_hidden_prefill : ℕ → Call
  prefetch_experts : ℕ → ℕ → ℕ → Call
  prefetch_experts_decode : ℕ → ℕ → ℕ → Call
  prefetch_experts_to_pin : ℕ → ℕ → Call
  prepare_for_decode : Call
  pre_attention : ℕ → ℕ → Call
  offload_qkv : ℕ → ℕ → Call
  cpu_attention : ℕ → ℕ → Call
  load_hidden : ℕ → ℕ → Call
  post_attention : ℕ → ℕ → ℕ → Call

-- `for i in range(start, start + n)`
unfoldable pub for_range : {A : Type 0} → (start n : ℕ) → (ℕ → List A) → List A
for_range start zero body = []
for_range start (suc n) body = body start ++ for_range (suc start) n body

-- The three calls that compute the attention of a micro-batch on the CPU.
abbrev pub attention : (i k : ℕ) → List Call
attention i k = pre_attention i k ∷ offload_qkv i k ∷ cpu_attention i k ∷ []

abbrev pub to_pin : Option (ℕ × ℕ) → List Call
to_pin none = []
to_pin (some (layer_id, slot_id)) = prefetch_experts_to_pin layer_id slot_id ∷ []

-- The test `if layer_id and slot_id` of the later pages, which takes 0 for nothing.
abbrev pub to_pin_nonzero : Option (ℕ × ℕ) → List Call
to_pin_nonzero none = []
to_pin_nonzero (some (layer_id, slot_id)) =
    if ltb 0 layer_id && ltb 0 slot_id then prefetch_experts_to_pin layer_id slot_id ∷ [] else []

module _ (shape : Shape) where
  -- `get_prefetch_e2p_idx`: the layer and the slot to copy to pinned memory next. With no page at
  -- all, which `Shape` leaves out, the code returns nothing that can be unpacked.
  unfoldable pub get_prefetch_e2p_idx : (i j k : ℕ) → Option (ℕ × ℕ)
  get_prefetch_e2p_idx i j k =
      if shape.num_pages == 1
      then (if ltb (i + 1) shape.num_layers
          then (if ltb (k + 2) shape.num_mb
              then some ((i + 1) % shape.num_layers, k + 2)
              else some ((i + 2) % shape.num_layers, (k + 2) % shape.num_mb))
          else (if ltb (k + 2) shape.num_mb
              then some ((i + 1) % shape.num_layers, k + 2)
              else none))
      else (if ltb (j + 1) shape.num_pages
          then (if ltb (k + 2) shape.num_mb
              then some (i, k + 2)
              else (if ltb (j + 2) shape.num_pages
                  then some (i, (k + 2) % shape.num_mb)
                  else some ((i + 1) % shape.num_layers, (k + 2) % shape.num_mb)))
          else (if ltb (k + 2) shape.num_mb
              then some ((i + 1) % shape.num_layers, k + 2)
              else none))

  -- One micro-batch of a page of a layer in the prefill.
  unfoldable pub prefill_batch : (i j k : ℕ) → List Call
  prefill_batch i j k =
      layer i j k ∷ (if j == 0 then offload_kv_cache i k ∷ [] else [])
      ++ (if ltb 1 shape.num_mb
          then offload_hidden_prefill k ∷ load_hidden_prefill ((k + 1) % shape.num_mb) ∷ []
          else [])

  -- The prefetch behind a page: that of the next page, or of the first one of the next layer.
  unfoldable pub prefetch_next : (i j : ℕ) → Call
  prefetch_next i j =
      if j == shape.num_pages - 1
      then prefetch_experts ((i + 1) % shape.num_layers) 0 0
      else prefetch_experts i (j + 1) 0

  unfoldable pub prefill_page : (i j : ℕ) → List Call
  unfolding prefill_batch for_range prefetch_next
  prefill_page i j = for_range 0 shape.num_mb (prefill_batch i j) ++ (prefetch_next i j ∷ [])

  unfoldable pub prefill_calls : List Call
  unfolding prefill_page
  prefill_calls =
      prefetch_experts 0 0 0
      ∷ for_range 0 shape.num_layers (λ i. for_range 0 shape.num_pages (prefill_page i))

  -- The prologue of a decode step, for one of the first two micro-batches.
  unfoldable pub prologue : ℕ → List Call
  prologue k =
      attention 0 k
      ++ (if ltb 1 shape.num_pages
          then prefetch_experts_to_pin 0 k ∷ []
          else prefetch_experts_to_pin 1 k ∷ [])

  -- The attention that runs ahead, two micro-batches before it is needed.
  unfoldable pub attention_ahead : (i k : ℕ) → List Call
  attention_ahead i k =
      if ltb 2 shape.num_mb
      then (if ltb (k + 2) shape.num_mb
          then attention i (k + 2)
          else (if ltb i (shape.num_layers - 1)
              then attention (i + 1) ((k + 2) % shape.num_mb)
              else []))
      else []

  -- The first page of a layer for micro-batch `k`.
  unfoldable pub decode_first : (i k : ℕ) → List Call
  unfolding attention_ahead get_prefetch_e2p_idx
  decode_first i k =
      load_hidden i k
        ∷ (if ltb 1 shape.num_pages
            then prefetch_experts_decode i 1 k
            else prefetch_experts_decode ((i + 1) % shape.num_layers) 0 k)
        ∷ post_attention i 0 k
        ∷ attention_ahead i k
      ++ to_pin (get_prefetch_e2p_idx i 0 k)

  -- A later page of a layer for micro-batch `k`.
  unfoldable pub decode_later : (i j k : ℕ) → List Call
  unfolding get_prefetch_e2p_idx
  decode_later i j k =
      (if j == shape.num_pages - 1
        then prefetch_experts_decode ((i + 1) % shape.num_layers) 0 k
        else prefetch_experts_decode i j k)
      ∷ post_attention i j k
      ∷ to_pin_nonzero (get_prefetch_e2p_idx i j k)

  unfoldable pub decode_layer : ℕ → List Call
  unfolding decode_first decode_later for_range
  decode_layer i =
      for_range 0 shape.num_mb (decode_first i)
      ++ for_range 1 (shape.num_pages - 1) (λ j. for_range 0 shape.num_mb (decode_later i j))

  -- One decode step: `self.micro_batches[:2]` has at most as many batches as there are.
  unfoldable pub decode_calls : List Call
  unfolding prologue decode_layer
  decode_calls =
      prepare_for_decode ∷ for_range 0 (if ltb 2 shape.num_mb then 2 else shape.num_mb) prologue
      ++ for_range 0 shape.num_layers decode_layer

  abbrev pub num_decode_steps : ℕ
  num_decode_steps = if ltb 1 shape.num_mb then shape.gen_len - 1 else 1

  -- The calls of `batch_forward_step` from the prefill to the last decode step.
  unfoldable pub forward_calls : List Call
  unfolding prefill_calls decode_calls for_range
  forward_calls = prefill_calls ++ for_range 0 num_decode_steps (λ step. decode_calls)
