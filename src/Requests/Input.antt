-- ===== src/Requests/Input.antt =====
-- `GenerateReqInput.post_init` of fastmoe/serve/io_struct.py: the defaults of a request, for one text
-- or a list of texts. `uuid` gives the i-th identifier that `uuid4` makes.
use Prim.Native.String.{String}
use harvest_mo_e.Base.{
  ℕ, ◌≡◌, refl, ap, ◌∙◌, Bool, false, List, [], ◌∷◌, Option, none, some, length, length-replicate,
  length-range_from, replicate, range, map, arith, suc, inl, inr, ◌⊎◌, zero, ◌+◌, ◌<◌, ◌≤◌,
  range_from, All, All-mono, All-range_from, All-replicate, get_elem?,
}
use harvest_mo_e.Base.Action.{Error, Result, ok, raise}

-- A Python value that is one item or a list of them.
pub data OneOrMany (A : Type 0) : Type 0 where
  one : A → OneOrMany A
  many : List A → OneOrMany A

pub record GenerateReqInput (P : Type 0) : Type 0 where
  pub text : OneOrMany String
  pub sampling_params : Option (OneOrMany P)
  pub rid : Option (OneOrMany ℕ)
  pub return_logprob : Option (OneOrMany Bool)
  pub logprob_start_len : Option (OneOrMany ℕ)

-- For one text: the default where there is nothing.
abbrev pub or_default : {A : Type 0} → A → Option (OneOrMany A) → Option (OneOrMany A)
or_default default none = some (one default)
or_default default (some x) = some x

-- For `num` texts: one item is repeated, and a list is kept as it is.
abbrev pub spread : {A : Type 0} → ℕ → A → Option (OneOrMany A) → Option (OneOrMany A)
spread num default none = some (many (replicate num default))
spread num default (some (one x)) = some (many (replicate num x))
spread num default (some (many xs)) = some (many xs)

-- The identifiers of `num` texts: a single one fails the assertion.
abbrev pub spread_rid : (ℕ → ℕ) → ℕ → Option (OneOrMany ℕ) → Result (Option (OneOrMany ℕ))
spread_rid uuid num none = ok (some (many (map uuid (range num))))
spread_rid uuid num (some (one x)) = raise Error.assertion_error
spread_rid uuid num (some (many xs)) = ok (some (many xs))

module _ {P : Type 0} (no_params : P) (uuid : ℕ → ℕ) where
  unfoldable pub post_init : GenerateReqInput P → Result (GenerateReqInput P)
  post_init obj = elim obj.text [
    | one text ↦ ok (record obj {
      sampling_params = or_default no_params obj.sampling_params;
      rid = or_default (uuid 0) obj.rid;
      return_logprob = or_default false obj.return_logprob;
      logprob_start_len = or_default 0 obj.logprob_start_len;
    })
    | many texts ↦
        let num = length texts in
        elim (spread_rid uuid num obj.rid) [
          | raise e ↦ raise e
          | Result.blocked ↦ Result.blocked
          | ok rid ↦ ok (record obj {
            sampling_params = spread num no_params obj.sampling_params;
            rid = rid;
            return_logprob = spread num false obj.return_logprob;
            logprob_start_len = spread num 0 obj.logprob_start_len;
          })
        ]
  ]

-- A field that is missing, one item, or a list of `num` items.
abbrev pub Matches : {A : Type 0} → ℕ → Option (OneOrMany A) → Type 0
Matches num none = Unit
Matches num (some (one x)) = Unit
Matches num (some (many xs)) = length xs ≡ num

-- The items of a list for a field: the default where it is missing, the one item, or its own ones.
abbrev pub IsMadeOf : {A : Type 0} → A → Option (OneOrMany A) → List A → Type 0
IsMadeOf default none xs = All (λ x. x ≡ default) xs
IsMadeOf default (some (one y)) xs = All (λ x. x ≡ y) xs
IsMadeOf default (some (many ys)) xs = xs ≡ ys

-- A field that became a list of `num` items, made of what it was.
abbrev pub IsFull : {A : Type 0} → ℕ → A → (before after : Option (OneOrMany A)) → Type 0
IsFull {A} num default before after =
    (xs : List A) × (after ≡ some (many xs)) × (length xs ≡ num) × IsMadeOf default before xs

-- The identifiers that the request brings, or else the first `num` new ones.
abbrev pub IsNamed : (ℕ → ℕ) → ℕ → (before after : Option (OneOrMany ℕ)) → Type 0
IsNamed uuid num before after =
    (xs : List ℕ) × (after ≡ some (many xs))
    × (length xs ≡ num)
    × ((before ≡ some (many xs))
        ⊎ ((before ≡ none) × All (λ i. get_elem? xs i ≡ some (uuid i)) (range num)))

spread-IsFull :
    {A : Type 0} (num : ℕ) (default : A) (field : Option (OneOrMany A))
    → Matches num field
    → IsFull num default field (spread num default field)
spread-IsFull num default none m = (
  replicate num default,
  refl,
  length-replicate num default,
  All-replicate (λ x. x ≡ default) num default refl,
)
spread-IsFull num default (some (one x)) m =
    (replicate num x, refl, length-replicate num x, All-replicate (λ y. y ≡ x) num x refl)
spread-IsFull num default (some (many xs)) m = (xs, refl, m, refl)

length-map : {A B : Type 0} (f : A → B) (xs : List A) → length (map f xs) ≡ length xs
length-map f [] = refl
length-map f (x ∷ xs) = ap suc (length-map f xs)

get_elem?-map_range :
    (uuid : ℕ → ℕ) (start n i : ℕ)
    → i < n
    → get_elem? (map uuid (range_from start n)) i ≡ some (uuid (start + i))
get_elem?-map_range uuid start zero i u = absurd (omega arith)
get_elem?-map_range uuid start (suc n) zero u = ap (λ k. some (uuid k)) (omega arith)
get_elem?-map_range uuid start (suc n) (suc i) u =
    get_elem?-map_range uuid (start + 1) n i (omega arith) ∙ ap (λ k. some (uuid k)) (omega arith)

range-IsNamed :
    (uuid : ℕ → ℕ) (num : ℕ)
    → All (λ i. get_elem? (map uuid (range num)) i ≡ some (uuid i)) (range num)
range-IsNamed uuid num =
    All-mono (λ i. (0 ≤ i) × (i < 0 + num))
      (λ i. get_elem? (map uuid (range num)) i ≡ some (uuid i)) (range num)
      (λ i h.
        get_elem?-map_range uuid 0 num i (omega (arith, h.1))
        ∙ ap (λ k. some (uuid k)) (omega arith))
      (All-range_from 0 num)

spread_rid-IsNamed :
    (uuid : ℕ → ℕ) (num : ℕ) (field : Option (OneOrMany ℕ))
    → Matches num field
    → (((x : ℕ) × (field ≡ some (one x)))
        × (spread_rid uuid num field ≡ raise Error.assertion_error))
      ⊎ ((rid : Option (OneOrMany ℕ)) × (spread_rid uuid num field ≡ ok rid)
          × IsNamed uuid num field rid)
spread_rid-IsNamed uuid num none m = inr (
  _,
  refl,
  (
    map uuid (range num),
    refl,
    length-map uuid (range num) ∙ length-range_from 0 num,
    inr (refl, range-IsNamed uuid num),
  ),
)
spread_rid-IsNamed uuid num (some (one x)) m = inl ((x, refl), refl)
spread_rid-IsNamed uuid num (some (many xs)) m = inr (_, refl, (xs, refl, m, inl refl))

-- For a list of texts whose other fields are missing, single, or lists of the same length,
-- `post_init` fails its assertion exactly where there is a single identifier. In every other case
-- each field becomes a list with one item for each text: the default or the single item for every
-- text, or the given list. A missing list of identifiers becomes that of the first new ones.
pub post_init_lem :
    {P : Type 0} (no_params : P) (uuid : ℕ → ℕ) (texts : List String) (obj : GenerateReqInput P)
    → obj.text ≡ many texts
    → Matches (length texts) obj.sampling_params
    → Matches (length texts) obj.rid
    → Matches (length texts) obj.return_logprob
    → Matches (length texts) obj.logprob_start_len
    → (((x : ℕ) × (obj.rid ≡ some (one x)))
        × (post_init no_params uuid obj ≡ raise Error.assertion_error))
      ⊎ ((obj' : GenerateReqInput P) × (post_init no_params uuid obj ≡ ok obj')
          × (obj'.text ≡ many texts)
          × IsFull (length texts) no_params obj.sampling_params obj'.sampling_params
          × IsNamed uuid (length texts) obj.rid obj'.rid
          × IsFull (length texts) false obj.return_logprob obj'.return_logprob
          × IsFull (length texts) 0 obj.logprob_start_len obj'.logprob_start_len)
unfolding post_init
post_init_lem no_params uuid texts obj is_many params rids logprobs starts =
    let num = length texts in
    elim (spread_rid-IsNamed uuid num obj.rid rids) [
      | inl (single, failed) ↦ inl (single, rw (is_many, post_init) rw failed refl)
      | inr (rid, run, full) ↦ inr (
        record obj {
          sampling_params = spread num no_params obj.sampling_params;
          rid = rid;
          return_logprob = spread num false obj.return_logprob;
          logprob_start_len = spread num 0 obj.logprob_start_len;
        },
        ground (arith, is_many, run),
        is_many,
        spread-IsFull num no_params obj.sampling_params params,
        full,
        spread-IsFull num false obj.return_logprob logprobs,
        spread-IsFull num 0 obj.logprob_start_len starts,
      )
    ]
