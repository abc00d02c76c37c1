-- ===== src/Schedule/Decode.antt =====
-- What a decode step calls for one micro-batch: with more than two micro-batches, and the experts of
-- a layer in one page, the attention runs two micro-batches ahead of the rest of the layer.
use mathlib.Core.List.{append-nil}
use native.Mathlib.Decide.{ℕ_discrete}
use native.Mathlib.Nat.{add-mod_left, mod-eq_of_lt}
use harvest_mo_e.Base.{
  Bool-cases, inl, inr, ℕ, zero, suc, ◌+◌, ◌-◌, ◌%◌, ◌≤◌, ◌<◌, ◌≡◌, ◌≢◌, refl, ap, ◌∙◌, Bool, true,
  false, List, [], ◌∷◌, ◌++◌, Option, none, some, ltb, ◌==◌, if◌then◌else◌, arith,
}
use harvest_mo_e.Schedule.{
  Shape, Call, layer, offload_kv_cache, offload_hidden_prefill, load_hidden_prefill, pre_attention,
  offload_qkv, cpu_attention, load_hidden, post_attention, for_range, attention, attention_ahead,
  decode_first, decode_layer, decode_calls, prologue, to_pin, get_prefetch_e2p_idx,
}
use harvest_mo_e.Schedule.Loops.{only, only-append, only-for_range, for_range-same, for_range-two}

-- The calls for micro-batch `b`: those that compute a layer, or move its keys and values or its
-- hidden states.
unfoldable pub of_batch : ℕ → Call → Bool
of_batch b (layer i j k) = k == b
of_batch b (offload_kv_cache i k) = k == b
of_batch b (offload_hidden_prefill k) = k == b
of_batch b (load_hidden_prefill k) = k == b
of_batch b (pre_attention i k) = k == b
of_batch b (offload_qkv i k) = k == b
of_batch b (cpu_attention i k) = k == b
of_batch b (load_hidden i k) = k == b
of_batch b (post_attention i j k) = k == b
of_batch b _ = false

-- The rest of a layer, after its attention.
abbrev pub rest_of_layer : (i k : ℕ) → List Call
rest_of_layer i k = load_hidden i k ∷ post_attention i 0 k ∷ []

-- One decode step for a micro-batch on its own: its layers in their order, and each layer after its
-- attention.
unfoldable pub sequential_decode : (num_layers k : ℕ) → List Call
unfolding for_range
sequential_decode num_layers k = for_range 0 num_layers (λ i.
    pre_attention i k
    ∷ offload_qkv i k
    ∷ cpu_attention i k
    ∷ load_hidden i k
    ∷ post_attention i 0 k
    ∷ [])

only-attention_same : (i b : ℕ) → only (of_batch b) (attention i b) ≡ attention i b
unfolding only of_batch
only-attention_same i b = ground arith

only-attention_other : (i k b : ℕ) → k ≢ b → only (of_batch b) (attention i k) ≡ []
unfolding only of_batch
only-attention_other i k b differ = ground arith

only-to_pin : (b : ℕ) (idx : Option (ℕ × ℕ)) → only (of_batch b) (to_pin idx) ≡ []
unfolding only of_batch
only-to_pin b none = refl
only-to_pin b (some (l, s)) = refl

pub mod_wrap : (m n : ℕ) → n ≤ m → m < n + n → m % n ≡ m - n
mod_wrap m n l u =
    let split : m ≡ n + (m - n) = omega arith in
    ap (λ x. x % n) split ∙ add-mod_left n (m - n) ∙ mod-eq_of_lt (omega arith)

module _ (L g n : ℕ) where
  abbrev pub one_page : Shape
  one_page = record { num_layers = L; num_pages = 1; gen_len = g; num_mb = n }

  pub only-decode_first :
      (i k b : ℕ)
      → only (of_batch b) (decode_first one_page i k)
        ≡ (if k == b then rest_of_layer i b else [])
          ++ only (of_batch b) (attention_ahead one_page i k)
  unfolding decode_first only of_batch
  only-decode_first i k b =
      let pins = only-to_pin b (get_prefetch_e2p_idx one_page i 0 k) in
      let ahead =
        only-append (of_batch b) (attention_ahead one_page i k)
          (to_pin (get_prefetch_e2p_idx one_page i 0 k)) in
      let nil = append-nil (only (of_batch b) (attention_ahead one_page i k)) in
      ground (arith, pins, ahead, nil)

module _ (L g n : ℕ) (many : 2 < n) where
  abbrev shape : Shape
  shape = one_page L g n

  ahead_near : (i k b : ℕ) → k + 2 < n → attention_ahead shape i k ≡ attention i (k + 2)
  unfolding attention_ahead
  ahead_near i k b near = ground arith

  ahead_next :
      (i k : ℕ)
      → n ≤ k + 2
      → k < n
      → attention_ahead shape i k ≡ (if ltb i (L - 1) then attention (i + 1) (k + 2 - n) else [])
  unfolding attention_ahead
  ahead_next i k far bound = ground (arith, mod_wrap (k + 2) n far (omega arith))

  only-attention_ahead :
      (i k b : ℕ)
      → k < n
      → b < n
      → only (of_batch b) (attention_ahead shape i k) ≡ (
          if k + 2 == b
          then attention i b
          else (if k + 2 == b + n then (if ltb i (L - 1) then attention (i + 1) b else []) else []))
  unfolding only
  only-attention_ahead i k b u v = elim (ℕ_discrete (k + 2) b) [
    | yes e ↦ ground (arith, ahead_near i k b (omega arith), only-attention_same i b)
    | no ne ↦ elim (Bool-cases (ltb (k + 2) n)) [
      | inl near ↦
          ground
            (arith, ahead_near i k b (ground (arith, near)), only-attention_other i (k + 2) b ne)
      | inr far ↦
          let next = ahead_next i k (ground (arith, far)) u in
          elim (ℕ_discrete (k + 2) (b + n)) [
            | yes e ↦
                let at : k + 2 - n ≡ b = omega arith in
                ground (arith, ap (attention (i + 1)) at, next, only-attention_same (i + 1) b)
            | no ne' ↦
                ground
                  (arith, next, only-attention_other (i + 1) (k + 2 - n) b (ground (arith, far)))
          ]
    ]
  ]

  decode_first-other :
      (i k b : ℕ)
      → k < n
      → b < n
      → k ≢ b
      → k + 2 ≢ b
      → k + 2 ≢ b + n
      → only (of_batch b) (decode_first shape i k) ≡ []
  decode_first-other i k b u v d d₁ d₂ =
      ground (arith, only-decode_first L g n i k b, only-attention_ahead i k b u v)

  decode_first-own :
      (i b : ℕ) → b < n → only (of_batch b) (decode_first shape i b) ≡ rest_of_layer i b
  decode_first-own i b bound =
      ground (arith, only-decode_first L g n i b b, only-attention_ahead i b b bound bound)

  decode_first-near :
      (i b : ℕ) → 2 ≤ b → b < n → only (of_batch b) (decode_first shape i (b - 2)) ≡ attention i b
  decode_first-near i b l bound = ground (
    arith,
    only-decode_first L g n i (b - 2) b,
    only-attention_ahead i (b - 2) b (omega arith) bound,
  )

  decode_first-next :
      (i b : ℕ)
      → b < 2
      → only (of_batch b) (decode_first shape i (b + n - 2))
        ≡ (if ltb i (L - 1) then attention (i + 1) b else [])
  decode_first-next i b l = ground (
    arith,
    only-decode_first L g n i (b + n - 2) b,
    only-attention_ahead i (b + n - 2) b (omega arith) (omega arith),
  )

  only-rounds :
      (i b : ℕ)
      → only (of_batch b) (decode_layer shape i)
        ≡ for_range 0 n (λ k. only (of_batch b) (decode_first shape i k))
  unfolding decode_layer
  only-rounds i b =
      ap (only (of_batch b)) (append-nil (for_range 0 n (decode_first shape i)))
      ∙ only-for_range (of_batch b) 0 n (decode_first shape i)

  -- A layer, for a micro-batch whose attention is computed within the layer.
  decode_layer-far :
      (i b : ℕ)
      → 2 ≤ b
      → b < n
      → only (of_batch b) (decode_layer shape i) ≡ attention i b ++ rest_of_layer i b
  unfolding decode_layer
  decode_layer-far i b l u =
      let two =
        for_range-two 0 n (b - 2) b (λ k. only (of_batch b) (decode_first shape i k)) (omega arith)
          (omega arith) (omega arith)
          (λ k l' u' d d'.
            decode_first-other i k b (omega arith) u d' (omega arith) (omega arith)) in
      only-rounds i b
      ∙ two
      ∙ ap (λ calls. calls ++ only (of_batch b) (decode_first shape i b))
          (decode_first-near i b l u)
      ∙ ap (λ calls. attention i b ++ calls) (decode_first-own i b u)

  -- A layer, for one of the first two micro-batches: the attention is that of the next layer.
  decode_layer-first :
      (i b : ℕ)
      → b < 2
      → only (of_batch b) (decode_layer shape i)
        ≡ rest_of_layer i b ++ (if ltb i (L - 1) then attention (i + 1) b else [])
  decode_layer-first i b l =
      let two =
        for_range-two 0 n b (b + n - 2) (λ k. only (of_batch b) (decode_first shape i k))
          (omega arith) (omega arith) (omega arith)
          (λ k l' u' d d'.
            decode_first-other i k b (omega arith) (omega arith) d (omega arith) (omega arith)) in
      only-rounds i b
      ∙ two
      ∙ ap (λ calls. calls ++ only (of_batch b) (decode_first shape i (b + n - 2)))
          (decode_first-own i b (omega arith))
      ∙ ap (λ calls. rest_of_layer i b ++ calls) (decode_first-next i b l)

  -- The attention that runs ahead, put before the layer that it belongs to.
  shift_attention :
      (start m b : ℕ)
      → start + suc m ≡ L
      → attention start b
          ++ for_range start
              (suc m)
              (λ i. rest_of_layer i b ++ (if ltb i (L - 1) then attention (i + 1) b else []))
        ≡ for_range start (suc m) (λ i. attention i b ++ rest_of_layer i b)
  unfolding for_range
  shift_attention start zero b e = ground (arith, e)
  shift_attention start (suc m) b e =
      let rest = shift_attention (suc start) m b (omega arith) in
      let more : ltb start (L - 1) ≡ true = ground (arith, e) in ground (arith, more, rest)

  only-prologue :
      (b : ℕ)
      → only (of_batch b) (for_range 0 2 (prologue shape)) ≡ (if ltb b 2 then attention 0 b else [])
  unfolding only of_batch for_range prologue
  only-prologue b = ground arith

  decode_calls-split :
      (b : ℕ)
      → only (of_batch b) (decode_calls shape)
        ≡ (if ltb b 2 then attention 0 b else [])
          ++ for_range 0 L (λ i. only (of_batch b) (decode_layer shape i))
  unfolding decode_calls only of_batch
  decode_calls-split b =
      let two : (if ltb 2 n then 2 else n) ≡ 2 = ground (arith, many) in
      rw two (
        only-append (of_batch b) (for_range 0 2 (prologue shape))
          (for_range 0 L (decode_layer shape))
        ∙ ap (λ calls. calls ++ only (of_batch b) (for_range 0 L (decode_layer shape)))
            (only-prologue b)
        ∙ ap (λ calls. (if ltb b 2 then attention 0 b else []) ++ calls)
            (only-for_range (of_batch b) 0 L (decode_layer shape)))

-- With more than two micro-batches, at least one layer, and the experts of a layer in one page, the
-- calls of a decode step for any micro-batch are those of its layers one after the other, and each
-- layer after its attention, although the step runs the micro-batches interleaved.
pub decode_calls-only :
    (num_layers gen_len num_mb b : ℕ)
    → 1 ≤ num_layers
    → 2 < num_mb
    → b < num_mb
    → only (of_batch b) (decode_calls (one_page num_layers gen_len num_mb))
      ≡ sequential_decode num_layers b
unfolding sequential_decode for_range
decode_calls-only zero g n b some_layer many u = absurd (omega arith)
decode_calls-only (suc m) g n b some_layer many u = elim (Bool-cases (ltb b 2)) [
  | inl early ↦
      let split = decode_calls-split (suc m) g n many b in
      let layers =
        for_range-same 0 (suc m) (λ i. only (of_batch b) (decode_layer (shape (suc m) g n many) i))
          (λ i. rest_of_layer i b ++ (if ltb i (suc m - 1) then attention (i + 1) b else []))
          (λ i l' u'. decode_layer-first (suc m) g n many i b (ground (arith, early))) in
      let shifted = shift_attention (suc m) g n many 0 m b (omega arith) in
      ground (arith, early, split, ap (λ calls. attention 0 b ++ calls) layers, shifted)
  | inr late ↦
      let split = decode_calls-split (suc m) g n many b in
      let layers =
        for_range-same 0 (suc m) (λ i. only (of_batch b) (decode_layer (shape (suc m) g n many) i))
          (λ i. attention i b ++ rest_of_layer i b)
          (λ i l' u'. decode_layer-far (suc m) g n many i b (ground (arith, late)) u) in
      ground (arith, late, split, layers)
]
