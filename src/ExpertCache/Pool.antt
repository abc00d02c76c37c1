-- ===== src/ExpertCache/Pool.antt =====
-- The token pool that `build_context` of fastmoe/backend/execution_engine.py creates, and the
-- micro-batches of a queue in it.
use native.Mathlib.Nat.{mul-div_cancel, mul-le-mul_right}
use harvest_mo_e.Base.{
  ℕ, ◌+◌, ◌*◌, ◌/◌, ◌≤◌, ◌≡◌, inl, inr, refl, ap, sym, ◌∙◌, true, Bool-cases, some, ltb, ◌==◌,
  arith, List, length, get_elem?, get_elem?_of_ge, All, map,
}
use harvest_mo_e.Base.Action.{Result, ok, raise, blocked}
use harvest_mo_e.KvPool.{RowTensors, TokenToKvPool, init}
use harvest_mo_e.KvPool.Lines.{IsAt, init-IsAt}
use harvest_mo_e.Requests.Req.{Req}
use harvest_mo_e.MicroBatches.{Policy, create_micro_batches}
use harvest_mo_e.MicroBatches.Capacity.{create_micro_batches-FitsPolicy}
use harvest_mo_e.Prefill.{Batch, pool, init_new}
use harvest_mo_e.Prefill.Engine.{prepare_all, prepare_all_lem}
use harvest_mo_e.ExpertCache.{Config, build_context}
use harvest_mo_e.ExpertCache.Mapping.{IsOnePage}

-- The pool of a context.
unfoldable pub token_pool : {V : Type 0} (lib : RowTensors V) → Config → Result (TokenToKvPool lib)
unfolding build_context init
token_pool lib c = elim (build_context c) [
  | ok sizes ↦ init lib sizes.gpu_token_buffer_size sizes.cpu_token_pool_size c.num_layers
  | raise e ↦ raise e
  | blocked ↦ blocked
]

-- The limits that `create_micro_batches` reads from a context with the pool `p`.
abbrev pub policy_of : {V : Type 0} {lib : RowTensors V} → Config → TokenToKvPool lib → Policy
policy_of c p = record { ubs = c.ubs; n_ub = c.n_ub; capacity = p.cache_line; gen_len = c.gen_len }

context_init :
    {V : Type 0} (lib : RowTensors V) (c : Config)
    → IsOnePage c
    → token_pool lib c
      ≡ init lib
          (2 * (c.ubs * (c.avg_prompt_tokens + c.gen_len)))
          (c.n_ub * c.ubs * (c.avg_prompt_tokens + c.gen_len))
          c.num_layers
unfolding token_pool build_context
context_init lib c v =
    let same : (c.num_comp_experts == c.num_local_experts) ≡ true = ground (arith, v.one_page) in
    rw (same, token_pool, build_context) refl

-- A pool of lines for prompts and answers of a micro-batch has one line for each micro-batch.
token_pool_size :
    {V : Type 0} (lib : RowTensors V) (c : Config) (p : TokenToKvPool lib)
    → IsOnePage c
    → token_pool lib c ≡ ok p
    → IsAt 0 p × (p.cpu_size ≡ c.n_ub * p.cache_line)
token_pool_size lib c p v e =
    let tokens = c.ubs * (c.avg_prompt_tokens + c.gen_len) in
    let (at, line, size) =
      init-IsAt lib (2 * tokens) (c.n_ub * c.ubs * (c.avg_prompt_tokens + c.gen_len)) c.num_layers p
        (sym (context_init lib c v) ∙ e) in
    let half : 2 * tokens / 2 ≡ tokens = omega arith in
    let own : p.cache_line ≡ tokens = line ∙ half in
    let all : c.n_ub * c.ubs * (c.avg_prompt_tokens + c.gen_len) ≡ c.n_ub * p.cache_line =
      rw own (omega arith) in
    let lines : p.cpu_size
        ≡ c.n_ub * c.ubs * (c.avg_prompt_tokens + c.gen_len) / p.cache_line * p.cache_line =
      rw (← line) at size in
    let parts : p.cpu_size ≡ c.n_ub * p.cache_line / p.cache_line * p.cache_line =
      lines ∙ ap (λ m. m / p.cache_line * p.cache_line) all in
    (at, parts ∙ ap (λ m. m * p.cache_line) (mul-div_cancel c.n_ub at.positive))

-- In a context whose experts make one page, for a queue of at least `ubs` requests of which each
-- micro-batch holds at least one: all micro-batches are prepared, each at a line of its own of the
-- pool that the context created, and this line lies within the CPU pool.
pub token_pool-prepared :
    {V : Type 0} (lib : RowTensors V) (c : Config) (p : TokenToKvPool lib) (queue : List Req)
    (k : ℕ) (reqs : List Req)
    → IsOnePage c
    → token_pool lib c ≡ ok p
    → 1 ≤ c.ubs
    → c.ubs ≤ length queue
    → All (λ (rs : List Req). 1 ≤ length rs) (create_micro_batches (policy_of c p) queue).0
    → get_elem? (create_micro_batches (policy_of c p) queue).0 k ≡ some reqs
    → let (micro_batches, aborted) = create_micro_batches (policy_of c p) queue in
      let (result, caches) = prepare_all lib c.gen_len (map init_new micro_batches) (pool p) in
      (bs : List Batch) × (b : Batch) × (result ≡ ok bs)
      × (get_elem? bs k ≡ some b)
      × (b.cpu_kv_pool_start_loc ≡ k * p.cache_line)
      × (b.cpu_kv_pool_start_loc + p.cache_line ≤ p.cpu_size)
token_pool-prepared lib c p queue k reqs v e h enough full found =
    let (at, size) = token_pool_size lib c p v e in
    let micro_batches = (create_micro_batches (policy_of c p) queue).0 in
    let (number, fit, kept, marked) =
      create_micro_batches-FitsPolicy (policy_of c p) queue 0 h enough in
    let (bs, p', b, run, caches, next, there, start) =
      prepare_all_lem lib c.gen_len 0 k p micro_batches reqs at full found in
    let below : k + 1 ≤ c.n_ub = elim (Bool-cases (ltb k c.n_ub)) [
      | inl less ↦ ground (arith, less)
      | inr not_less ↦
          let outside : length micro_batches ≤ k = ground (arith, not_less, number) in
          absurd (ground (arith, get_elem?_of_ge micro_batches k outside, found))
    ] in
    let begin : b.cpu_kv_pool_start_loc ≡ k * p.cache_line =
      start ∙ ap (λ m. m * p.cache_line) (omega arith) in
    (bs, b, run, there, begin, omega (arith, begin, size, mul-le-mul_right p.cache_line below))
