-- ===== src/Tracker/Updates.antt =====
-- What the operations on one expert change, and the shape of the tracker that they keep.
use mathlib.Core.Option
use harvest_mo_e.Base.{
  ◌⊎◌, ℕ, ◌≡◌, refl, ap, ◌∙◌, false, ◌&&◌, none, some, List, [], ◌∷◌, arith, ◌==◌, if◌then◌else◌,
  range, inl, inr, Option-cases,
}
use harvest_mo_e.Base.Int.{ℤ}
use harvest_mo_e.Base.Dict.{Dict, lookup, insert, lookup-insert}
use harvest_mo_e.Base.Action.{ok, modify}
use harvest_mo_e.Tracker.{
  MemoryLocation, ExpertStatus, ExpertLocation, LayerExpertMap, ExpertTracker, dict_of,
  initial_expert, initial_layer, init, with_lock, find, put, moved, accessed,
  update_expert_location, mark_expert_accessed,
}

abbrev pub keys : {V : Type 0} → Dict V → List ℕ
keys [] = []
keys ((k, v) ∷ d) = k ∷ keys d

-- Every entry satisfies the predicate, which also reads the key.
abbrev pub AllEntries : {V : Type 0} → (ℕ → V → Type 0) → Dict V → Type 0
AllEntries P [] = Unit
AllEntries P ((k, v) ∷ d) = P k v × AllEntries P d

-- A layer that lists the experts 0, …, n - 1, each under its own identifiers.
pub record IsLayer (n layer : ℕ) (m : LayerExpertMap) : Type 0 where
  pub same_layer : m.layer_id ≡ layer
  pub same_number : m.num_experts ≡ n
  pub all_experts : keys m.experts ≡ range n
  pub named :
      AllEntries
        (λ expert (e : ExpertLocation). (e.expert_id ≡ expert) × (e.layer_id ≡ layer))
        m.experts

-- A tracker that nobody holds, with the layers 0, …, num_layers - 1.
pub record IsTracker (t : ExpertTracker) : Type 0 where
  pub free : t.locked ≡ false
  pub all_layers : keys t.layers ≡ range t.num_layers
  pub layers_ok : AllEntries (IsLayer t.num_experts_per_layer) t.layers

keys-insert :
    {V : Type 0} (k : ℕ) (v w : V) (d : Dict V) → lookup k d ≡ some w → keys (insert k v d) ≡ keys d
keys-insert k v w [] e = cc
keys-insert k v w ((j, x) ∷ d) e = ground (arith, e, keys-insert k v w d)

AllEntries-insert :
    {V : Type 0} (P : ℕ → V → Type 0) (k : ℕ) (v w : V) (d : Dict V)
    → AllEntries P d
    → lookup k d ≡ some w
    → P k v
    → AllEntries P (insert k v d)
AllEntries-insert P k v w [] a e p = cc
AllEntries-insert P k v w ((j, x) ∷ d) a e p = ground (arith, a, e, p, AllEntries-insert P k v w d)

AllEntries-lookup :
    {V : Type 0} (P : ℕ → V → Type 0) (k : ℕ) (v : V) (d : Dict V)
    → AllEntries P d
    → lookup k d ≡ some v
    → P k v
AllEntries-lookup P k v [] a e = cc
AllEntries-lookup P k v ((j, x) ∷ d) a e = ground (arith, a, e, AllEntries-lookup P k v d)

keys-dict_of : {V : Type 0} (f : ℕ → V) (ks : List ℕ) → keys (dict_of f ks) ≡ ks
keys-dict_of f [] = refl
keys-dict_of f (k ∷ ks) = ap (◌∷◌ k) (keys-dict_of f ks)

AllEntries-dict_of :
    {V : Type 0} (P : ℕ → V → Type 0) (f : ℕ → V) (ks : List ℕ)
    → ((k : ℕ) → P k (f k))
    → AllEntries P (dict_of f ks)
AllEntries-dict_of P f [] p = tt
AllEntries-dict_of P f (k ∷ ks) p = (p k, AllEntries-dict_of P f ks p)

-- A new tracker is well formed.
pub init-IsTracker :
    (now num_layers num_experts gpu_experts cache_size : ℕ)
    → IsTracker (init now num_layers num_experts gpu_experts cache_size)
unfolding init
init-IsTracker now num_layers num_experts gpu_experts cache_size = record {
  free = refl;
  all_layers = keys-dict_of (initial_layer now num_experts) (range num_layers);
  layers_ok =
      AllEntries-dict_of (IsLayer num_experts) (initial_layer now num_experts) (range num_layers)
        (λ layer. record {
          same_layer = refl;
          same_number = refl;
          all_experts = keys-dict_of (initial_expert now layer) (range num_experts);
          named =
              AllEntries-dict_of
                (λ expert (e : ExpertLocation). (e.expert_id ≡ expert) × (e.layer_id ≡ layer))
                (initial_expert now layer) (range num_experts) (λ expert. (refl, refl));
        });
}

-- The tracker after a write to the entry `e` of layer `m`.
abbrev written : ℕ → ℕ → LayerExpertMap → ExpertLocation → ExpertTracker → ExpertTracker
written layer expert m e t = record t {
  layers = insert layer (record m { experts = insert expert e m.experts }) t.layers;
}

put-cases :
    (layer expert : ℕ) (f : ExpertLocation → ExpertLocation) (t : ExpertTracker)
    → ((put layer expert f t ≡ t) × (find layer expert t ≡ none))
      ⊎ ((m : LayerExpertMap) × (e : ExpertLocation) × (lookup layer t.layers ≡ some m)
          × (lookup expert m.experts ≡ some e)
          × (put layer expert f t ≡ written layer expert m (f e) t))
put-cases layer expert f t = elim (Option-cases (lookup layer t.layers)) [
  | inl n ↦ inl (rw (n, put) refl, rw (n, find) refl)
  | inr (m, em) ↦ elim (Option-cases (lookup expert m.experts)) [
    | inl n ↦ inl (ground (arith, em, n), ground (arith, em, n))
    | inr (e, ee) ↦ inr (m, e, em, ee, ground (arith, em, ee))
  ]
]

-- A write that keeps the identifiers of an entry keeps the shape.
put-IsTracker :
    (layer expert : ℕ) (f : ExpertLocation → ExpertLocation) (t : ExpertTracker)
    → ((e : ExpertLocation) → ((f e).expert_id ≡ e.expert_id) × ((f e).layer_id ≡ e.layer_id))
    → IsTracker t
    → IsTracker (put layer expert f t)
put-IsTracker layer expert f t keep v = elim (put-cases layer expert f t) [
  | inl (same, n) ↦ rw same v
  | inr (m, e, em, ee, run) ↦
      let l = AllEntries-lookup (IsLayer t.num_experts_per_layer) layer m t.layers v.layers_ok em in
      let P : ℕ → ExpertLocation → Type 0 =
        λ expert e. (e.expert_id ≡ expert) × (e.layer_id ≡ layer) in
      let (named_expert, named_layer) = AllEntries-lookup P expert e m.experts l.named ee in
      let (keep_expert, keep_layer) = keep e in
      let m' : LayerExpertMap = record m { experts = insert expert (f e) m.experts } in
      let l' : IsLayer t.num_experts_per_layer layer m' = record {
        same_layer = l.same_layer;
        same_number = l.same_number;
        all_experts = keys-insert expert (f e) e m.experts ee ∙ l.all_experts;
        named =
            AllEntries-insert P expert (f e) e m.experts l.named ee
              (keep_expert ∙ named_expert, keep_layer ∙ named_layer);
      } in
      rw run (record {
        free = v.free;
        all_layers = keys-insert layer m' m t.layers em ∙ v.all_layers;
        layers_ok =
            AllEntries-insert (IsLayer t.num_experts_per_layer) layer m' m t.layers v.layers_ok em
              l';
      })
]

-- A write under the free lock.
locked_put :
    (layer expert : ℕ) (f : ExpertLocation → ExpertLocation) (t : ExpertTracker)
    → t.locked ≡ false
    → with_lock (modify (put layer expert f)) t ≡ (ok tt, put layer expert f t)
locked_put layer expert f t free = elim (put-cases layer expert f t) [
  | inl (same, n) ↦ ground (arith, free, same, n)
  | inr (m, e, em, ee, run) ↦ ground (arith, free, em, ee)
]

find-put :
    (layer expert layer' expert' : ℕ) (f : ExpertLocation → ExpertLocation) (t : ExpertTracker)
    → find layer' expert' (put layer expert f t) ≡ (
        if layer' == layer && expert' == expert
        then Option.map f (find layer' expert' t)
        else find layer' expert' t)
find-put layer expert layer' expert' f t = elim (put-cases layer expert f t) [
  | inl (same, n) ↦ ground (arith, same, n)
  | inr (m, e, em, ee, run) ↦
      let m' : LayerExpertMap = record m { experts = insert expert (f e) m.experts } in
      ground (
        arith,
        run,
        em,
        ee,
        lookup-insert layer' layer m' t.layers,
        lookup-insert expert' expert (f e) m.experts,
      )
]

-- An update of any expert of a well-formed tracker, known or not, returns and keeps the tracker
-- well formed. Of the entries it changes that of the expert only, if there is one: it gets the
-- given location, status, device, slot and time, and keeps its identifiers and its access count.
pub update_expert_location_lem :
    (layer expert layer' expert' : ℕ) (location : MemoryLocation) (status : ExpertStatus)
    (device slot : ℤ) (now : ℕ) (t : ExpertTracker)
    → IsTracker t
    → let (result, t') = update_expert_location layer expert location status device slot now t in
      (result ≡ ok tt)
      × IsTracker t'
      × (find layer' expert' t' ≡ (
          if layer' == layer && expert' == expert
          then Option.map
              (λ (e : ExpertLocation). record {
                expert_id = e.expert_id;
                layer_id = e.layer_id;
                location = location;
                status = status;
                device_id = device;
                cache_slot = slot;
                last_accessed = now;
                access_count = e.access_count;
              })
              (find layer' expert' t)
          else find layer' expert' t))
unfolding update_expert_location
update_expert_location_lem layer expert layer' expert' location status device slot now t v =
    let f = moved location status device slot now in
    rw (locked_put layer expert f t v.free) (
      refl,
      put-IsTracker layer expert f t (λ e. (refl, refl)) v,
      find-put layer expert layer' expert' f t,
    )

-- An access to any expert of a well-formed tracker, known or not, returns and keeps the tracker
-- well formed. It raises the access count of that expert by one, if there is such an expert, and
-- changes no other entry.
pub mark_expert_accessed_lem :
    (layer expert layer' expert' now : ℕ) (t : ExpertTracker)
    → IsTracker t
    → let (result, t') = mark_expert_accessed layer expert now t in
      (result ≡ ok tt)
      × IsTracker t'
      × (find layer' expert' t' ≡ (
          if layer' == layer && expert' == expert
          then Option.map (accessed now) (find layer' expert' t)
          else find layer' expert' t))
unfolding mark_expert_accessed
mark_expert_accessed_lem layer expert layer' expert' now t v =
    rw (locked_put layer expert (accessed now) t v.free) (
      refl,
      put-IsTracker layer expert (accessed now) t (λ e. (refl, refl)) v,
      find-put layer expert layer' expert' (accessed now) t,
    )
