-- ===== src/Requests/Sampling.antt =====
-- The checks of `SamplingParams` in fastmoe/serve/sampling_params.py: its constructor, `verify` and
-- `normalize`. Floats are a parameter, with the order that the checks use; a comparison with a NaN is
-- false. Texts are numbers where they are only compared, and the tokenizer is a parameter.
use Prim.Native.Nat.{max}
use Prim.Native.String.{String}
use harvest_mo_e.Base.{
  ℕ, ◌≡◌, inl, inr, refl, ap, ◌∙◌, Bool, true, false, not, ◌&&◌, ◌||◌, List, [], ◌∷◌, Option, none,
  some, if◌then◌else◌, length, ◌^◌, Bool-cases, arith,
}
use harvest_mo_e.Base.Int.{ℤ, pos, negsuc, ltb_ℤ, eqb_ℤ, eq_of_eqb_ℤ}
use harvest_mo_e.Base.Action.{Error, Result, ok, raise}
use harvest_mo_e.Requests.Input.{OneOrMany, one, many}

-- `lt` is `<`. `le` is `<=`. What is below 0 is below the smallest temperature that is kept.
pub record Floats (F : Type 0) : Type 0 where
  pub lt : F → F → Bool
  pub le : F → F → Bool
  pub zero_point : F
  pub sampling_eps : F
  pub one_point : F
  pub two : F
  pub minus_two : F
  pub lt_eps : (x : F) → lt x zero_point ≡ true → lt x sampling_eps ≡ true
  pub one_not_lt : lt one_point zero_point ≡ false

-- The parameters, in the source's order without those that no check reads.
pub record Sampling (F : Type 0) : Type 0 where
  pub max_new_tokens : ℤ
  pub stop_strs : Option (OneOrMany String)
  pub temperature : F
  pub top_p : F
  pub top_k : ℤ
  pub frequency_penalty : F
  pub presence_penalty : F
  pub is_int : Bool

module _ {F : Type 0} (floats : Floats F) where
  -- A temperature that is too small is one of 1 that keeps the first token only.
  abbrev pub greedy : Sampling F → Sampling F
  greedy s =
      if floats.lt s.temperature floats.sampling_eps
      then record s { temperature = floats.one_point; top_k = pos 1 }
      else s

  abbrev pub whole_vocabulary : Sampling F → Sampling F
  whole_vocabulary s = if eqb_ℤ s.top_k (negsuc 0) then record s { top_k = pos (2 ^ 30) } else s

  abbrev pub int_stops : Sampling F → Sampling F
  int_stops s = if s.is_int then record s { stop_strs = some (many (" " ∷ "\n" ∷ [])) } else s

  -- `SamplingParams.__init__`
  unfoldable pub init : Sampling F → Sampling F
  init s = int_stops (whole_vocabulary (greedy s))

  unfoldable pub verify : Sampling F → Result (Unit {0})
  verify s =
      if floats.lt s.temperature floats.zero_point
      then raise Error.value_error
      else if not (floats.lt floats.zero_point s.top_p && floats.le s.top_p floats.one_point)
      then raise Error.value_error
      else if ltb_ℤ s.top_k (negsuc 0) || eqb_ℤ s.top_k (pos 0)
      then raise Error.value_error
      else if not (
          floats.le floats.minus_two s.frequency_penalty
          && floats.le s.frequency_penalty floats.two)
      then raise Error.value_error
      else if not
          (floats.le floats.minus_two s.presence_penalty && floats.le s.presence_penalty floats.two)
      then raise Error.value_error
      else if ltb_ℤ s.max_new_tokens (pos 0)
      then raise Error.value_error
      else ok tt

-- The list of stop strings, and the length of the longest in tokens.
pub record Normalized : Type 0 where
  pub stop_list : List String
  pub stop_str_max_len : ℕ

module _ (encode : String → List ℕ) where
  unfoldable pub max_len : List String → ℕ → ℕ
  max_len [] longest = longest
  max_len (stop_str ∷ stop_strs) longest =
      max_len stop_strs (max longest (length (encode stop_str)))

  unfoldable pub normalize : Option (OneOrMany String) → Normalized
  unfolding max_len
  normalize none = record { stop_list = []; stop_str_max_len = 0 }
  normalize (some (one stop_str)) = record {
    stop_list = stop_str ∷ [];
    stop_str_max_len = max_len (stop_str ∷ []) 0;
  }
  normalize (some (many stop_strs)) = record {
    stop_list = stop_strs;
    stop_str_max_len = max_len stop_strs 0;
  }

module _ {F : Type 0} (floats : Floats F) where
  -- The parameters as they were given: the number of the most probable tokens counts unless the
  -- temperature is too small, and the temperature itself never does.
  abbrev pub is_usable : Sampling F → Bool
  is_usable s =
      (floats.lt floats.zero_point s.top_p && floats.le s.top_p floats.one_point)
      && (floats.lt s.temperature floats.sampling_eps
          || not (ltb_ℤ s.top_k (negsuc 0) || eqb_ℤ s.top_k (pos 0)))
      && (floats.le floats.minus_two s.frequency_penalty
          && floats.le s.frequency_penalty floats.two)
      && (floats.le floats.minus_two s.presence_penalty && floats.le s.presence_penalty floats.two)
      && not (ltb_ℤ s.max_new_tokens (pos 0))

  verify-int_stops : (s : Sampling F) → verify floats (int_stops floats s) ≡ verify floats s
  unfolding verify
  verify-int_stops s = elim (Bool-cases s.is_int) [
    | inl int ↦ ground (arith, int)
    | inr other ↦ ground (arith, other)
  ]

  verify-greedy :
      (s : Sampling F)
      → floats.lt s.temperature floats.sampling_eps ≡ true
      → verify floats (whole_vocabulary floats (greedy floats s))
        ≡ (if is_usable s then ok tt else raise Error.value_error)
  unfolding verify
  verify-greedy s h = ground (arith, h, floats.one_not_lt)

  greedy-same :
      (s : Sampling F) → floats.lt s.temperature floats.sampling_eps ≡ false → greedy floats s ≡ s
  greedy-same s h = rw (h, greedy) refl

  not_below_zero :
      (s : Sampling F)
      → floats.lt s.temperature floats.sampling_eps ≡ false
      → floats.lt s.temperature floats.zero_point ≡ false
  not_below_zero s h = elim (Bool-cases (floats.lt s.temperature floats.zero_point)) [
    | inl below ↦ absurd (ground (arith, h, floats.lt_eps s.temperature below))
    | inr kept ↦ kept
  ]

  verify-whole :
      (s : Sampling F)
      → floats.lt s.temperature floats.sampling_eps ≡ false
      → verify floats (whole_vocabulary floats s)
        ≡ (if is_usable s then ok tt else raise Error.value_error)
  unfolding verify
  verify-whole s h =
      let kept = not_below_zero s h in
      elim (Bool-cases (eqb_ℤ s.top_k (negsuc 0))) [
        | inl all ↦ ground (arith, h, kept, all, eq_of_eqb_ℤ s.top_k (negsuc 0) all)
        | inr some_k ↦ ground (arith, h, kept, some_k)
      ]

  verify-kept :
      (s : Sampling F)
      → floats.lt s.temperature floats.sampling_eps ≡ false
      → verify floats (whole_vocabulary floats (greedy floats s))
        ≡ (if is_usable s then ok tt else raise Error.value_error)
  verify-kept s h =
      ap (λ t. verify floats (whole_vocabulary floats t)) (greedy-same s h) ∙ verify-whole s h

-- For parameters that were constructed, `verify` succeeds exactly if what was given is usable: 0 <
-- top_p <= 1, the penalties from -2 to 2, max_new_tokens not negative, and top_k either -1 or
-- positive or the temperature too small; no temperature fails. Else it raises a ValueError.
pub verify-init :
    {F : Type 0} (floats : Floats F) (s : Sampling F)
    → verify floats (init floats s)
      ≡ (if is_usable floats s then ok tt else raise Error.value_error)
unfolding init
verify-init floats s =
    verify-int_stops floats (whole_vocabulary floats (greedy floats s))
    ∙ elim (Bool-cases (floats.lt s.temperature floats.sampling_eps)) [
      | inl low ↦ verify-greedy floats s low
      | inr kept ↦ verify-kept floats s kept
    ]
